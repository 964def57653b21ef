-- ===== src/Entdefine/Lifecycle.antt =====
-- The lifecycle over a run: the phase, the marks and the place of the main coroutine.
use mathlib.Core.Path.{subst}
use temporal_entity.Base.{
  ◌≡◌, refl, ◌⊎◌, inl, inr, if_keeps, Bool, true, false, Option, List, Str, Dict, lookup,
  Option-cases, Check,
}
use temporal_entity.Entity.State.{Phase}
use temporal_entity.Entity.Command.{Codec, CommandName}
use temporal_entity.Wire.{Envelope, CommandEnvelope, UpdateArgs}
use temporal_entity.Entdefine.Attributes.{Attributes}
use temporal_entity.Entdefine.Definition.{Definition}
use temporal_entity.Entdefine.Loop.{
  Machine, Pc, Event, Reach, at_command, at_top, at_idle, at_continue, at_init, at_cancelled_init,
  at_drain, at_finalize, at_reconcile, closed, completed, failed, continued, begin_run,
  with_pending, accept_update, receive_delete, settle_init, is_blocked_at,
}
use temporal_entity.Entdefine.Effects.{Effect}
use temporal_entity.Entdefine.Effects.Commands.{
  run_set_labels-Effect, run_unknown-Effect, finish_command-Effect,
}
use temporal_entity.Entdefine.Effects.Stages.{
  begin_delete-Effect, finish_drain-Effect, finish_finalize-Effect, finish_reconcile-Effect,
  settle_init-Effect,
}
use temporal_entity.Entdefine.Frame.{publish_laws}
use temporal_entity.Entdefine.Induction.{Kept}
use temporal_entity.Entdefine.Induction.Steps.{reach_keeps}

abbrev pub Ready : Phase → Bool → Type 0
Ready phase initialized = (phase ≡ Phase.ready) × (initialized ≡ true)

-- What a place of the main coroutine says of the phase, of `initialized` and of the deletion mark.
abbrev pub Agrees : {Spec State : Type 0} → Pc Spec State → Phase → Bool → Bool → Type 0
Agrees at_init phase initialized marked = (phase ≡ Phase.creating) × (initialized ≡ false)
Agrees at_cancelled_init phase initialized marked =
    (phase ≡ Phase.creating) × (initialized ≡ false) × (marked ≡ true)
-- a creation that the deletion cut short leaves its phase to the deletion path
Agrees at_top phase initialized marked =
    ((phase ≡ Phase.ready) × (initialized ≡ true)) ⊎ ((phase ≡ Phase.creating) × (marked ≡ true))
Agrees at_drain phase initialized marked = (phase ≡ Phase.deleting) × (marked ≡ true)
Agrees at_finalize phase initialized marked = (phase ≡ Phase.deleting) × (marked ≡ true)
Agrees (closed completed) phase initialized marked = (phase ≡ Phase.deleted) × (marked ≡ true)
Agrees (closed (failed e)) phase initialized marked =
    ((phase ≡ Phase.create_failed) × (marked ≡ false))
    ⊎ ((phase ≡ Phase.delete_failed) × (marked ≡ true))
Agrees (closed (continued env)) phase initialized marked =
    (env.phase ≡ Phase.ready) × (env.initialized ≡ true)
Agrees _ phase initialized marked = (phase ≡ Phase.ready) × (initialized ≡ true)

module _ {W Spec State : Type 0} where
  abbrev pub IsConsistent : Machine W Spec State → Type 0
  IsConsistent m = Agrees m.pc m.env.phase m.env.initialized m.env.marked_for_deletion

  Agrees-after :
      {m n : Machine W Spec State} {events : List Event} {place : Pc Spec State} {stage : Phase}
      {started : Bool} {queue : List CommandEnvelope}
      → Effect m n events place stage started queue
      → Agrees place stage started m.env.marked_for_deletion
      → IsConsistent n
  Agrees-after {m} {n} {events} {place} {stage} {started} e a =
      rw (e.pc, e.phase, e.initialized, e.marked) a

  pub Agrees-at :
      (m : Machine W Spec State) (place : Pc Spec State)
      → m.pc ≡ place
      → IsConsistent m
      → Agrees place m.env.phase m.env.initialized m.env.marked_for_deletion
  Agrees-at m place h a =
      subst
        (λ (x : Pc Spec State). Agrees x m.env.phase m.env.initialized m.env.marked_for_deletion) h
        a

  -- At the head of the loop without a mark the entity is ready.
  pub Ready-at_top :
      (m : Machine W Spec State)
      → m.pc ≡ at_top
      → m.env.marked_for_deletion ≡ false
      → IsConsistent m
      → Ready m.env.phase m.env.initialized
  Ready-at_top m h u a = elim (Agrees-at m at_top h a) [ inl r ↦ r | inr (c, k) ↦ cc (u, k) ]

module _ {Spec State : Type 0} where
  -- The mark may be set at any place but the ends.
  marking-Agrees :
      (pc : Pc Spec State) (waiting : List Str) (phase : Phase) (initialized marked : Bool)
      → is_blocked_at pc waiting ≡ true
      → Agrees pc phase initialized marked
      → Agrees pc phase initialized true
  marking-Agrees at_init waiting phase initialized marked o a = a
  marking-Agrees at_cancelled_init waiting phase initialized marked o a = (a.0, a.1, refl)
  marking-Agrees at_top waiting phase initialized marked o a = cc o
  marking-Agrees at_drain waiting phase initialized marked o a = (a.0, refl)
  marking-Agrees at_finalize waiting phase initialized marked o a = (a.0, refl)
  marking-Agrees (closed e) waiting phase initialized marked o a = cc o
  marking-Agrees (at_command c) waiting phase initialized marked o a = a
  marking-Agrees at_continue waiting phase initialized marked o a = a
  marking-Agrees at_idle waiting phase initialized marked o a = a
  marking-Agrees at_reconcile waiting phase initialized marked o a = a

module _ {Spec State : Type 0} where
  -- An envelope that a run may start from: a new one, or one of an entity that is ready.
  abbrev pub IsStartable : Envelope Spec State → Type 0
  IsStartable env = (env.initialized ≡ false) ⊎ (env.phase ≡ Phase.ready)

module _ {W Spec State : Type 0} (patches : Codec (Dict Str)) (workflow_id : Str)
    (d : Definition W Spec State) where
  accept_update-IsConsistent :
      (name : CommandName) (args : UpdateArgs) (m : Machine W Spec State)
      → IsConsistent m
      → IsConsistent (accept_update name args m)
  unfolding accept_update
  accept_update-IsConsistent name args m a =
      elim (Option-cases (lookup args.request_id m.env.completed)) [
        | inr (r, found) ↦ rw (found, accept_update) a
        | inl fresh ↦ rw (fresh, accept_update) a
      ]

  settles-IsConsistent :
      (r : W × State × Check) (m : Machine W Spec State)
      → (m.pc ≡ at_init) ⊎ (m.pc ≡ at_cancelled_init)
      → IsConsistent m
      → IsConsistent (settle_init patches d r m)
  settles-IsConsistent r m h a = elim (settle_init-Effect patches d r m) [
    | inl e ↦ Agrees-after e (inl (refl, refl))
    | inr (inl (marked, e)) ↦ Agrees-after e (inr (creating h, marked))
    | inr (inr (f, unmarked, e)) ↦ Agrees-after e (inl (refl, unmarked))
  ]
    where
      creating : (m.pc ≡ at_init) ⊎ (m.pc ≡ at_cancelled_init) → m.env.phase ≡ Phase.creating
      creating (inl p) = (Agrees-at m at_init p a).0
      creating (inr p) = (Agrees-at m at_cancelled_init p a).0

  pub IsConsistent-Kept : Kept patches workflow_id d (IsConsistent {W = W})
  IsConsistent-Kept = record {
    begins_delete = λ m h marked a. Agrees-after (begin_delete-Effect patches d m) (refl, marked);
    labels = λ c cs m h u _ _ a.
        Agrees-after (run_set_labels-Effect patches d c (with_pending patches d cs m)) a;
    unknowns = λ c cs m h u _ _ _ a.
        Agrees-after (run_unknown-Effect patches d c (with_pending patches d cs m)) a;
    takes = λ c cs m h u _ _ a. Ready-at_top m h u a;
    rolls = λ m h u _ _ a. Ready-at_top m h u a;
    idles = λ m h u _ a. Ready-at_top m h u a;
    commands = λ cmd c m h _ a.
        Agrees-after (finish_command-Effect patches d cmd c m)
          (inl (Agrees-at m (at_command c) h a));
    drains = λ m h _ a.
        let b = Agrees-at m at_drain h a in
        elim (finish_drain-Effect patches d m) [
          | inl e ↦ Agrees-after e b
          | inr e ↦ Agrees-after e (refl, b.1)
        ];
    finalizes = λ r m h _ a.
        let b = Agrees-at m at_finalize h a in
        elim (finish_finalize-Effect patches d r m) [
          | inl e ↦ Agrees-after e (refl, b.1)
          | inr (f, e) ↦ Agrees-after e (inr (refl, b.1))
        ];
    continues = λ m h _ a. Agrees-at m at_continue h a;
    wakes = λ m h a. inl (Agrees-at m at_idle h a);
    expires = λ m h a. Agrees-at m at_idle h a;
    reconciles = λ m h a. elim (finish_reconcile-Effect patches d m) [
      | inl same ↦ rw same a
      | inr (f, e) ↦ Agrees-after e (inl (Agrees-at m at_reconcile h a))
    ];
    settles = λ r m h _ a. settles-IsConsistent r m h a;
    cancels = λ m h marked a. let b = Agrees-at m at_init h a in (b.0, b.1, marked);
    accepts = λ name args m _ _ a. accept_update-IsConsistent name args m a;
    answers = λ id r m _ _ _ a. a;
    deletions = λ m o a.
        unfold receive_delete in
        marking-Agrees m.pc m.waiting m.env.phase m.env.initialized m.env.marked_for_deletion o a;
    suggestions = λ m _ a. a;
  }

  pub begin_run-IsConsistent :
      (w : W) (env : Envelope Spec State) (published : Option Attributes)
      → IsStartable env
      → IsConsistent (begin_run patches d w env published)
  unfolding begin_run
  begin_run-IsConsistent w env published h =
      if_keeps (IsConsistent {W = W} {Spec = Spec} {State = State}) env.initialized _ _
        (λ started. inl (startable h started, started))
        (λ fresh. elim (Option-cases d.init) [
          | inl missing ↦ rw missing (inl (simp publish_laws, simp publish_laws))
          | inr (f, found) ↦ rw found (simp publish_laws, simp publish_laws fresh)
        ])
    where
      startable : IsStartable env → env.initialized ≡ true → env.phase ≡ Phase.ready
      startable (inl fresh) started = cc (fresh, started)
      startable (inr r) started = r

  -- In every machine that a run reaches from an envelope that is not initialized or ready, the phase, `Initialized` and the deletion mark are those of
  -- the place where the main loop stands: ready wherever it serves, deleting while it drains and
  -- finalizes, and at the end deleted, delete_failed or create_failed, or ready and carried on.
  pub run-IsConsistent :
      (w : W) (env : Envelope Spec State) (published : Option Attributes) {m : Machine W Spec State}
      → IsStartable env
      → Reach patches workflow_id d (begin_run patches d w env published) m
      → IsConsistent m
  run-IsConsistent w env published h r =
      reach_keeps patches workflow_id d (IsConsistent {W = W}) IsConsistent-Kept
        (begin_run-IsConsistent w env published h) r

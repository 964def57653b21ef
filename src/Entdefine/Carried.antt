-- ===== src/Entdefine/Carried.antt =====
-- The envelope that continue-as-new carries into the next run.
use mathlib.Core.Path.{subst}
use temporal_entity.Base.{
  ◌≡◌, refl, ◌∙◌, sym, inl, inr, ==_refl, if_keeps, Bool, true, Option, none, some, List, [], ◌∷◌,
  ◌++◌, Str, arith, Dict, lookup, not_has, contains, contains-append, All, All-append, Option-cases,
}
use temporal_entity.Entity.Id.{RequestId}
use temporal_entity.Entity.State.{Phase}
use temporal_entity.Entity.Command.{Codec, CommandName}
use temporal_entity.Wire.{Envelope, CommandEnvelope, UpdateArgs, OpResult}
use temporal_entity.Entdefine.Attributes.{Attributes}
use temporal_entity.Entdefine.Definition.{Definition}
use temporal_entity.Entdefine.Loop.{
  Machine, Pc, Event, Reach, at_top, at_continue, at_drain, at_finalize, closed, completed, failed,
  continued, begin_run, with_pending, accept_update, receive_delete, erase_one,
}
use temporal_entity.Entdefine.Effects.{Effect}
use temporal_entity.Entdefine.Effects.Commands.{
  run_set_labels-Effect, run_unknown-Effect, finish_command-Effect,
}
use temporal_entity.Entdefine.Effects.Stages.{
  begin_delete-Effect, finish_drain-Effect, finish_finalize-Effect, finish_reconcile-Effect,
  settle_init-Effect,
}
use temporal_entity.Entdefine.Lifecycle.{Agrees, IsStartable, run-IsConsistent}
use temporal_entity.Entdefine.Induction.{Kept}
use temporal_entity.Entdefine.Induction.Steps.{reach_keeps}
use temporal_entity.Entdefine.Rollover.{
  IsAwaited, IsAwaited-snoc, IsAwaited-erase_one, nobody_waits,
}

abbrev AllAwaited : List RequestId → Dict OpResult → List CommandEnvelope → Type 0
AllAwaited waiting done pending = All (λ c. IsAwaited waiting done c.request_id) pending

AllAwaited-snoc :
    (waiting : List RequestId) (done : Dict OpResult) (k : RequestId) (cs : List CommandEnvelope)
    → AllAwaited waiting done cs
    → AllAwaited (waiting ++ k ∷ []) done cs
AllAwaited-snoc waiting done k [] h = tt
AllAwaited-snoc waiting done k (c ∷ cs) h =
    (IsAwaited-snoc waiting done k c.request_id h.0, AllAwaited-snoc waiting done k cs h.1)

AllAwaited-erase_one :
    (waiting : List RequestId) (done : Dict OpResult) (k : RequestId) (r : OpResult)
    (cs : List CommandEnvelope)
    → lookup k done ≡ some r
    → AllAwaited waiting done cs
    → AllAwaited (erase_one k waiting) done cs
AllAwaited-erase_one waiting done k r [] found h = tt
AllAwaited-erase_one waiting done k r (c ∷ cs) found h = (
  IsAwaited-erase_one waiting done k r c.request_id found h.0,
  AllAwaited-erase_one waiting done k r cs found h.1,
)

all_answered :
    (waiting : List RequestId) (done : Dict OpResult) (cs : List CommandEnvelope)
    → waiting ≡ []
    → AllAwaited waiting done cs
    → cs ≡ []
all_answered waiting done [] w h = refl
all_answered waiting done (c ∷ cs) w h = absurd (nobody_waits c.request_id waiting w h.0.0)

-- While the main loop waits to continue, each command that came in has a handler that waits; what
-- it carried then has an empty queue.
abbrev Carries :
    {Spec State : Type 0}
    → Pc Spec State
    → List RequestId
    → Dict OpResult
    → List CommandEnvelope
    → Type 0
Carries at_continue waiting done pending = AllAwaited waiting done pending
Carries (closed (continued env)) waiting done pending = env.pending ≡ []
Carries _ waiting done pending = Unit {0}

module _ {Spec State : Type 0} where
  Carries-accepted :
      (pc : Pc Spec State) (waiting : List RequestId) (done : Dict OpResult)
      (pending : List CommandEnvelope) (c : CommandEnvelope)
      → lookup c.request_id done ≡ none
      → Carries pc waiting done pending
      → Carries pc (waiting ++ c.request_id ∷ []) done (pending ++ c ∷ [])
  Carries-accepted at_continue waiting done pending c fresh h =
      All-append (λ b. IsAwaited (waiting ++ c.request_id ∷ []) done b.request_id) pending (c ∷ [])
        (AllAwaited-snoc waiting done c.request_id pending h)
        (
          (
            unfold contains in
                ground (
                  arith,
                  contains-append c.request_id waiting (c.request_id ∷ []),
                  ==_refl c.request_id,
                ),
            not_has c.request_id done fresh,
          ),
          tt,
        )
  Carries-accepted (closed (continued env)) waiting done pending c fresh h = h
  Carries-accepted (closed completed) waiting done pending c fresh h = tt
  Carries-accepted _ waiting done pending c fresh h = tt

  Carries-answered :
      (pc : Pc Spec State) (waiting : List RequestId) (done : Dict OpResult)
      (pending : List CommandEnvelope) (k : RequestId) (r : OpResult)
      → lookup k done ≡ some r
      → Carries pc waiting done pending
      → Carries pc (erase_one k waiting) done pending
  Carries-answered at_continue waiting done pending k r found h =
      AllAwaited-erase_one waiting done k r pending found h
  Carries-answered (closed (continued env)) waiting done pending k r found h = h
  Carries-answered _ waiting done pending k r found h = tt

module _ {W Spec State : Type 0} where
  abbrev IsCarrying : Machine W Spec State → Type 0
  IsCarrying m = Carries m.pc m.waiting m.env.completed m.env.pending

  IsCarrying-after :
      {m n : Machine W Spec State} {events : List Event} {place : Pc Spec State} {stage : Phase}
      {started : Bool} {queue : List CommandEnvelope}
      → Effect m n events place stage started queue
      → (at : Pc Spec State) → place ≡ at
      → Carries at n.waiting n.env.completed n.env.pending
      → IsCarrying n
  IsCarrying-after {n = n} e at h c =
      subst (λ (x : Pc Spec State). Carries x n.waiting n.env.completed n.env.pending)
        (sym (e.pc ∙ h)) c

module _ {W Spec State : Type 0} (patches : Codec (Dict Str)) (workflow_id : Str)
    (d : Definition W Spec State) where
  accept_update-IsCarrying :
      (name : CommandName) (args : UpdateArgs) (m : Machine W Spec State)
      → IsCarrying m
      → IsCarrying (accept_update name args m)
  unfolding accept_update
  accept_update-IsCarrying name args m h =
      elim (Option-cases (lookup args.request_id m.env.completed)) [
        | inr (r, found) ↦ rw (found, accept_update) h
        | inl fresh ↦
            rw (fresh, accept_update)
              (Carries-accepted m.pc m.waiting m.env.completed m.env.pending
                (record { request_id = args.request_id; name = name; payload = args.payload }) fresh
                h)
      ]

  IsCarrying-Kept : Kept patches workflow_id d (IsCarrying {W = W})
  IsCarrying-Kept = record {
    begins_delete =
        λ m h _ p. let e = begin_delete-Effect patches d m in IsCarrying-after e at_drain refl tt;
    labels = λ c cs m h _ _ _ p.
        let e = run_set_labels-Effect patches d c (with_pending patches d cs m) in
        IsCarrying-after e at_top h tt;
    unknowns = λ c cs m h _ _ _ _ p.
        let e = run_unknown-Effect patches d c (with_pending patches d cs m) in
        IsCarrying-after e at_top h tt;
    takes = λ c cs m h _ _ _ p. tt;
    rolls = λ m h _ q _ p. rw q tt;
    idles = λ m h _ _ p. tt;
    commands = λ cmd c m h _ p.
        let e = finish_command-Effect patches d cmd c m in IsCarrying-after e at_top refl tt;
    drains = λ m h _ p. elim (finish_drain-Effect patches d m) [
      | inl e ↦ IsCarrying-after e at_finalize refl tt
      | inr e ↦ IsCarrying-after e (closed completed) refl tt
    ];
    finalizes = λ r m h _ p. elim (finish_finalize-Effect patches d r m) [
      | inl e ↦ IsCarrying-after e (closed completed) refl tt
      | inr (f, e) ↦ IsCarrying-after e (closed (failed f)) refl tt
    ];
    continues = λ m h w p.
        all_answered m.waiting m.env.completed m.env.pending w
          (subst (λ (x : Pc Spec State). Carries x m.waiting m.env.completed m.env.pending) h p);
    wakes = λ m h p. tt;
    expires = λ m h p. tt;
    reconciles = λ m h p. elim (finish_reconcile-Effect patches d m) [
      | inl same ↦ rw same p
      | inr (f, e) ↦ IsCarrying-after e at_top refl tt
    ];
    settles = λ r m h _ p. elim (settle_init-Effect patches d r m) [
      | inl e ↦ IsCarrying-after e at_top refl tt
      | inr (inl (marked, e)) ↦ IsCarrying-after e at_top refl tt
      | inr (inr (f, unmarked, e)) ↦ IsCarrying-after e (closed (failed f)) refl tt
    ];
    cancels = λ m h _ p. tt;
    accepts = λ name args m _ _ p. accept_update-IsCarrying name args m p;
    answers = λ k r m _ _ found p.
        Carries-answered m.pc m.waiting m.env.completed m.env.pending k r found p;
    deletions = λ m _ p. unfold receive_delete in p;
    suggestions = λ m _ p. p;
  }

  begin_run-IsCarrying :
      (w : W) (env : Envelope Spec State) (published : Option Attributes)
      → IsCarrying (begin_run patches d w env published)
  unfolding begin_run
  begin_run-IsCarrying w env published =
      if_keeps (IsCarrying {W = W} {Spec = Spec} {State = State}) env.initialized _ _ (λ _. tt)
        (λ _. elim (Option-cases d.init) [
          | inl missing ↦ rw missing tt
          | inr (f, found) ↦ rw found tt
        ])

  -- When a run from an envelope that it may start from ends by continue-as-new, the envelope that it
  -- carries has an empty queue, is initialized and is in the phase ready.
  pub continued_envelope :
      (w : W) (env : Envelope Spec State) (published : Option Attributes) {m : Machine W Spec State}
      (carried : Envelope Spec State)
      → IsStartable env
      → Reach patches workflow_id d (begin_run patches d w env published) m
      → m.pc ≡ closed (continued carried)
      → (carried.pending ≡ []) × (carried.initialized ≡ true) × (carried.phase ≡ Phase.ready)
  continued_envelope w env published {m} carried s r h =
      let p =
        reach_keeps patches workflow_id d (IsCarrying {W = W}) IsCarrying-Kept
          (begin_run-IsCarrying w env published) r in
      let c = run-IsConsistent patches workflow_id d w env published s r in
      let ready =
        subst
          (λ (x : Pc Spec State). Agrees x m.env.phase m.env.initialized m.env.marked_for_deletion)
          h c in
      (
        subst (λ (x : Pc Spec State). Carries x m.waiting m.env.completed m.env.pending) h p,
        ready.1,
        ready.0,
      )

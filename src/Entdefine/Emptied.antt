-- ===== src/Entdefine/Emptied.antt =====
-- The end of the queue of a run: what is left in it when the run closes, and whether it is waited on.
use mathlib.Core.List.{append-nil}
use mathlib.Core.Path.{subst}
use temporal_entity.Base.{
  ◌≡◌, refl, ◌∙◌, ap, true, Bool, Option, none, some, List, [], ◌∷◌, ◌++◌, Str, Dict, inl, inr, ◌⊎◌,
  if_keeps, Option-cases, ◌≢◌, lookup,
}
use temporal_entity.Entity.State.{Phase}
use temporal_entity.Entity.Command.{Codec, CommandName}
use temporal_entity.Wire.{Envelope, CommandEnvelope, UpdateArgs}
use temporal_entity.Entdefine.Attributes.{Attributes}
use temporal_entity.Entdefine.Definition.{Definition}
use temporal_entity.Entdefine.Loop.{
  Machine, Pc, Event, Reach, begin_run, at_init, at_cancelled_init, at_top, at_command, at_drain,
  at_finalize, at_idle, at_continue, at_reconcile, closed, completed, continued, is_blocked,
  is_blocked_at, failed, go, wake_condition, accept_update, receive_delete, with_pending,
  validate_update, act, proceeds, proceed_from,
}
use temporal_entity.Entdefine.Effects.{Effect}
use temporal_entity.Entdefine.Effects.Commands.{
  run_set_labels-Effect, run_unknown-Effect, finish_command-Effect,
}
use temporal_entity.Entdefine.Effects.Stages.{
  begin_delete-Effect, finish_drain-Effect, finish_finalize-Effect, finish_reconcile-Effect,
  settle_init-Effect,
}
use temporal_entity.Entdefine.Induction.{Kept}
use temporal_entity.Entdefine.Induction.Steps.{reach_keeps}
use temporal_entity.Entdefine.Lifecycle.{IsStartable}
use temporal_entity.Entdefine.Carried.{continued_envelope}
use temporal_entity.Entdefine.Marked.{validators_refuse}
use temporal_entity.Entdefine.Queue.{arrivals, departures, in_flight, queue_in_order}
use temporal_entity.Entdefine.Serving.{proceed-at}

-- From the rejection of the queue to the end of a deletion the queue is empty and the mark stands, and
-- a run that was continued left its queue to the next one.
abbrev pub Emptied : {Spec State : Type 0} → Pc Spec State → List CommandEnvelope → Bool → Type 0
Emptied at_drain pending marked = (pending ≡ []) × (marked ≡ true)
Emptied at_finalize pending marked = (pending ≡ []) × (marked ≡ true)
Emptied (closed completed) pending marked = (pending ≡ []) × (marked ≡ true)
Emptied (closed (continued env)) pending marked = pending ≡ env.pending
Emptied _ pending marked = Unit {0}

-- A message that comes where the main coroutine is blocked: an update of an entity that is not marked,
-- and the deletion mark.
updating :
    {Spec State : Type 0} (pc : Pc Spec State) (waiting : List Str)
    (pending queue : List CommandEnvelope) (marked : Bool)
    → is_blocked_at pc waiting ≡ true
    → marked ≢ true
    → Emptied pc pending marked
    → Emptied pc queue marked
updating at_drain waiting pending queue marked b unmarked p = absurd (unmarked p.1)
updating at_finalize waiting pending queue marked b unmarked p = absurd (unmarked p.1)
updating (closed e) waiting pending queue marked b unmarked p = cc b
updating _ waiting pending queue marked b unmarked p = tt

marking :
    {Spec State : Type 0} (pc : Pc Spec State) (waiting : List Str) (pending : List CommandEnvelope)
    (marked : Bool)
    → is_blocked_at pc waiting ≡ true
    → Emptied pc pending marked
    → Emptied pc pending true
marking at_drain waiting pending marked b p = (p.0, refl)
marking at_finalize waiting pending marked b p = (p.0, refl)
marking (closed e) waiting pending marked b p = cc b
marking _ waiting pending marked b p = tt

module _ {W Spec State : Type 0} where
  abbrev pub IsEmptied : Machine W Spec State → Type 0
  IsEmptied m = Emptied m.pc m.env.pending m.env.marked_for_deletion

  IsEmptied-after :
      {m n : Machine W Spec State} {events : List Event} {place : Pc Spec State} {stage : Phase}
      {started : Bool} {queue : List CommandEnvelope}
      → Effect m n events place stage started queue
      → Emptied place queue m.env.marked_for_deletion
      → IsEmptied n
  IsEmptied-after {m} {n} {events} {place} {stage} {started} {queue} e p =
      rw (e.pc, e.pending, e.marked) p

  Emptied-at :
      (m : Machine W Spec State) (place : Pc Spec State)
      → m.pc ≡ place
      → IsEmptied m
      → Emptied place m.env.pending m.env.marked_for_deletion
  Emptied-at m place h p =
      subst (λ (x : Pc Spec State). Emptied x m.env.pending m.env.marked_for_deletion) h p

module _ {W Spec State : Type 0} (patches : Codec (Dict Str)) (workflow_id : Str)
    (d : Definition W Spec State) where
  accepts-IsEmptied :
      (name : CommandName) (args : UpdateArgs) (m : Machine W Spec State)
      → is_blocked m ≡ true
      → validate_update patches workflow_id d name args m ≡ some none
      → IsEmptied m
      → IsEmptied (accept_update name args m)
  unfolding accept_update
  accepts-IsEmptied name args m b taken p =
      elim (Option-cases (lookup args.request_id m.env.completed)) [
        | inr (r, found) ↦ rw (found, accept_update) p
        | inl fresh ↦
            rw (fresh, accept_update)
              (updating m.pc m.waiting m.env.pending _ m.env.marked_for_deletion b
                (λ marked. validators_refuse patches workflow_id d name args m marked taken) p)
      ]

  IsEmptied-Kept : Kept patches workflow_id d (IsEmptied {W = W} {Spec = Spec} {State = State})
  IsEmptied-Kept = record {
    begins_delete =
        λ m h marked _. IsEmptied-after (begin_delete-Effect patches d m) (refl, marked);
    labels = λ c rest m h u _ _ _.
        IsEmptied-after (run_set_labels-Effect patches d c (with_pending patches d rest m))
          (rw h tt);
    unknowns = λ c rest m h u _ _ _ _.
        IsEmptied-after (run_unknown-Effect patches d c (with_pending patches d rest m)) (rw h tt);
    takes = λ c rest m h u _ _ _. tt;
    rolls = λ m h u _ _ _. tt;
    idles = λ m h u _ _. tt;
    commands = λ cmd c m h _ _. IsEmptied-after (finish_command-Effect patches d cmd c m) tt;
    drains = λ m h _ p.
        let q = Emptied-at m at_drain h p in
        elim (finish_drain-Effect patches d m) [
          | inl e ↦ IsEmptied-after e q
          | inr e ↦ IsEmptied-after e q
        ];
    finalizes = λ r m h _ p.
        let q = Emptied-at m at_finalize h p in
        elim (finish_finalize-Effect patches d r m) [
          | inl e ↦ IsEmptied-after e q
          | inr (f, e) ↦ IsEmptied-after e tt
        ];
    continues = λ m h _ _. refl;
    wakes = λ m h _. tt;
    expires = λ m h _. tt;
    reconciles = λ m h p. elim (finish_reconcile-Effect patches d m) [
      | inl same ↦ rw same p
      | inr (f, e) ↦ IsEmptied-after e tt
    ];
    settles = λ r m h _ _. elim (settle_init-Effect patches d r m) [
      | inl e ↦ IsEmptied-after e tt
      | inr (inl (marked, e)) ↦ IsEmptied-after e tt
      | inr (inr (f, unmarked, e)) ↦ IsEmptied-after e tt
    ];
    cancels = λ m h _ _. tt;
    accepts = λ name args m b taken p. accepts-IsEmptied name args m b taken p;
    answers = λ id r m _ _ _ p. p;
    deletions = λ m b p.
        unfold receive_delete in marking m.pc m.waiting m.env.pending m.env.marked_for_deletion b p;
    suggestions = λ m _ p. p;
  }

  begin_run-IsEmptied :
      (w : W) (env : Envelope Spec State) (published : Option Attributes)
      → IsEmptied (begin_run patches d w env published)
  unfolding begin_run
  begin_run-IsEmptied w env published =
      if_keeps (IsEmptied {W = W} {Spec = Spec} {State = State}) env.initialized _ _ (λ _. tt)
        (λ _. elim (Option-cases d.init) [
          | inl missing ↦ rw missing tt
          | inr (f, found) ↦ rw found tt
        ])

  abbrev pub all_commands : Envelope Spec State → Machine W Spec State → List CommandEnvelope
  all_commands env m = env.pending ++ arrivals m.history

  -- The queue is empty, so that everything that came was dealt with.
  all_dealt_with :
      (env : Envelope Spec State) (m : Machine W Spec State) (place : Pc Spec State)
      → m.pc ≡ place
      → in_flight place ≡ []
      → m.env.pending ≡ []
      → all_commands env m ≡ departures m.history ++ (in_flight m.pc ++ m.env.pending)
      → all_commands env m ≡ departures m.history
  all_dealt_with env m place h none_runs empty b =
      b
      ∙ ap (λ l. departures m.history ++ l)
          (ap (λ l. l ++ m.env.pending) (ap in_flight h ∙ none_runs) ∙ empty)
      ∙ append-nil (departures m.history)

  -- What became of the commands when the main coroutine stands here: none is left at the end of a
  -- deletion or before the next run, and an idle loop either has none or can go on.
  abbrev pub Accounted : Envelope Spec State → Pc Spec State → Machine W Spec State → Type 0
  Accounted env (closed completed) m = all_commands env m ≡ departures m.history
  Accounted env (closed (continued next)) m = all_commands env m ≡ departures m.history
  Accounted env at_idle m =
      (all_commands env m ≡ departures m.history)
      ⊎ (act patches workflow_id d proceeds m ≡ some (go at_top m))
  Accounted env pc m = all_commands env m ≡ departures m.history ++ (in_flight pc ++ m.env.pending)

  balance_at :
      (env : Envelope Spec State) (m : Machine W Spec State) (place : Pc Spec State)
      → m.pc ≡ place
      → all_commands env m ≡ departures m.history ++ (in_flight m.pc ++ m.env.pending)
      → all_commands env m ≡ departures m.history ++ (in_flight place ++ m.env.pending)
  balance_at env m place h b =
      b ∙ ap (λ x. departures m.history ++ (in_flight x ++ m.env.pending)) h

  module _ (w : W) (env : Envelope Spec State) (published : Option Attributes)
      (m : Machine W Spec State) (s : IsStartable env)
      (r : Reach patches workflow_id d (begin_run patches d w env published) m) where
    balance : all_commands env m ≡ departures m.history ++ (in_flight m.pc ++ m.env.pending)
    balance = queue_in_order patches workflow_id d w env published r

    emptied : IsEmptied m
    emptied =
        reach_keeps patches workflow_id d (IsEmptied {W = W}) IsEmptied-Kept
          (begin_run-IsEmptied w env published) r

    idle_at :
        m.pc ≡ at_idle
        → (queue : List CommandEnvelope) → m.env.pending ≡ queue
        → Accounted env at_idle m
    unfolding act wake_condition proceed_from
    idle_at h [] empty = inl (all_dealt_with env m at_idle h refl empty balance)
    idle_at h (c ∷ cs) waits =
        inr (proceed-at patches workflow_id d m at_idle h ∙ (rw (waits, wake_condition) refl))

    Accounted-at : (place : Pc Spec State) → m.pc ≡ place → Accounted env place m
    Accounted-at (closed completed) h =
        all_dealt_with env m (closed completed) h refl (Emptied-at m _ h emptied).0 balance
    Accounted-at (closed (continued next)) h =
        all_dealt_with env m (closed (continued next)) h refl
          (Emptied-at m _ h emptied
            ∙ (continued_envelope patches workflow_id d w env published next s r h).0)
          balance
    Accounted-at at_idle h = idle_at h m.env.pending refl
    Accounted-at (closed (failed e)) h = balance_at env m _ h balance
    Accounted-at at_init h = balance_at env m _ h balance
    Accounted-at at_cancelled_init h = balance_at env m _ h balance
    Accounted-at at_top h = balance_at env m _ h balance
    Accounted-at (at_command c) h = balance_at env m _ h balance
    Accounted-at at_drain h = balance_at env m _ h balance
    Accounted-at at_finalize h = balance_at env m _ h balance
    Accounted-at at_continue h = balance_at env m _ h balance
    Accounted-at at_reconcile h = balance_at env m _ h balance

  -- In every machine that a run reaches from an envelope that is not initialized or ready, the
  -- commands that the envelope brought and those that arrived since are those that were executed or
  -- rejected, then the one being executed, then those in the queue, in this order. If the run has
  -- completed or was continued as new, all of them were executed or rejected. If the main loop is idle,
  -- all of them were too, or it can go on.
  pub queue-Accounted :
      (w : W) (env : Envelope Spec State) (published : Option Attributes) {m : Machine W Spec State}
      → IsStartable env
      → Reach patches workflow_id d (begin_run patches d w env published) m
      → (all_commands env m ≡ departures m.history ++ (in_flight m.pc ++ m.env.pending))
        × Accounted env m.pc m
  queue-Accounted w env published {m} s r =
      (balance w env published m s r, Accounted-at w env published m s r m.pc refl)

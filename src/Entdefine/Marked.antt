-- ===== src/Entdefine/Marked.antt =====
-- The deletion mark, and updates that come after it.
use temporal_entity.Base.{
  arith, ◌≡◌, refl, ◌∙◌, true, none, some, Bool, Str, List, Dict, ◌++◌, [], ap, ◌≢◌, inl, inr,
}
use mathlib.Core.List.{append-nil}
use temporal_entity.Entity.State.{Phase}
use temporal_entity.Entity.Command.{Codec, CommandName}
use temporal_entity.Wire.{CommandEnvelope, UpdateArgs}
use temporal_entity.Entdefine.Definition.{Definition}
use temporal_entity.Entdefine.Loop.{
  Machine, Pc, Event, Reach, validate_update, validate_labels, validate_command, receive_delete,
  with_pending,
}
use temporal_entity.Entdefine.Effects.{Effect}
use temporal_entity.Entdefine.Effects.Commands.{
  run_set_labels-Effect, run_unknown-Effect, finish_command-Effect,
}
use temporal_entity.Entdefine.Effects.Stages.{
  begin_delete-Effect, finish_drain-Effect, finish_finalize-Effect, finish_reconcile-Effect,
  settle_init-Effect,
}
use temporal_entity.Entdefine.Induction.{Kept}
use temporal_entity.Entdefine.Induction.Steps.{reach_keeps}
use temporal_entity.Entdefine.Queue.{arrivals, arrivals-append, arrivals-rejected}

module _ {W Spec State : Type 0} (patches : Codec (Dict Str)) (workflow_id : Str)
    (d : Definition W Spec State) where
  -- No validator passes an update of a marked entity.
  pub validators_refuse :
      (name : CommandName) (args : UpdateArgs) (m : Machine W Spec State)
      → m.env.marked_for_deletion ≡ true
      → validate_update patches workflow_id d name args m ≢ some none
  unfolding validate_update validate_labels validate_command
  validators_refuse name args m h = ground arith

  -- The entity is marked, and since then nothing has come into the queue.
  abbrev IsSealed : List CommandEnvelope → Machine W Spec State → Type 0
  IsSealed cs m = (m.env.marked_for_deletion ≡ true) × (arrivals m.history ≡ cs)

  IsSealed-after :
      (cs : List CommandEnvelope) {m n : Machine W Spec State} {events : List Event}
      {place : Pc Spec State} {stage : Phase} {started : Bool} {queue : List CommandEnvelope}
      → Effect m n events place stage started queue
      → arrivals events ≡ []
      → IsSealed cs m
      → IsSealed cs n
  IsSealed-after cs {m} {n} {events} e none_came p = (
    e.marked ∙ p.0,
    ap arrivals e.history
        ∙ arrivals-append m.history events
        ∙ ap (λ l. arrivals m.history ++ l) none_came
        ∙ append-nil (arrivals m.history)
        ∙ p.1,
  )

  IsSealed-Kept : (cs : List CommandEnvelope) → Kept patches workflow_id d (IsSealed cs)
  IsSealed-Kept cs = record {
    begins_delete = λ m h _ p.
        IsSealed-after cs (begin_delete-Effect patches d m) (arrivals-rejected m.env.pending) p;
    labels = λ c rest m h u _ _ p.
        IsSealed-after cs (run_set_labels-Effect patches d c (with_pending patches d rest m)) refl
          p;
    unknowns = λ c rest m h u _ _ _ p.
        IsSealed-after cs (run_unknown-Effect patches d c (with_pending patches d rest m)) refl p;
    takes = λ c rest m h u _ _ p. p;
    rolls = λ m h u _ _ p. p;
    idles = λ m h u _ p. p;
    commands = λ cmd c m h _ p. IsSealed-after cs (finish_command-Effect patches d cmd c m) refl p;
    drains = λ m h _ p. elim (finish_drain-Effect patches d m) [
      | inl e ↦ IsSealed-after cs e refl p
      | inr e ↦ IsSealed-after cs e refl p
    ];
    finalizes = λ r m h _ p. elim (finish_finalize-Effect patches d r m) [
      | inl e ↦ IsSealed-after cs e refl p
      | inr (f, e) ↦ IsSealed-after cs e refl p
    ];
    continues = λ m h _ p. p;
    wakes = λ m h p. p;
    expires = λ m h p. p;
    reconciles = λ m h p. elim (finish_reconcile-Effect patches d m) [
      | inl same ↦ rw same p
      | inr (f, e) ↦ IsSealed-after cs e refl p
    ];
    settles = λ r m h _ p. elim (settle_init-Effect patches d r m) [
      | inl e ↦ IsSealed-after cs e refl p
      | inr (inl (marked, e)) ↦ IsSealed-after cs e refl p
      | inr (inr (f, unmarked, e)) ↦ IsSealed-after cs e refl p
    ];
    cancels = λ m h _ p. p;
    accepts = λ name args m _ valid p. absurd (validators_refuse name args m p.0 valid);
    answers = λ id r m _ _ _ p.
        (p.0, arrivals-append m.history _ ∙ append-nil (arrivals m.history) ∙ p.1);
    deletions = λ m _ p. unfold receive_delete in (refl, p.1);
    suggestions = λ m _ p. p;
  }

  -- Once an entity is marked for deletion it stays marked, and no command enters its queue: whatever
  -- updates arrive, the commands that have come in are those that had come in before.
  pub marked_takes_nothing :
      {m o : Machine W Spec State}
      → m.env.marked_for_deletion ≡ true
      → Reach patches workflow_id d m o
      → (o.env.marked_for_deletion ≡ true) × (arrivals o.history ≡ arrivals m.history)
  marked_takes_nothing {m} h r =
      reach_keeps patches workflow_id d (IsSealed (arrivals m.history))
        (IsSealed-Kept (arrivals m.history)) (h, refl) r

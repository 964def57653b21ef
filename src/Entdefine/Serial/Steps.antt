-- ===== src/Entdefine/Serial/Steps.antt =====
-- The pieces of the main loop of pkg/entdefine/loop.go that do more than execute a command, on the
-- sequential entity.
use mathlib.Core.List.{append-nil}
use temporal_entity.Base.{◌≡◌, refl, ◌∙◌, ap, sym, inl, inr, [], ◌∷◌, ◌++◌, Str, Dict, Check}
use temporal_entity.Entity.Command.{Codec}
use temporal_entity.Wire.{Envelope, CommandEnvelope}
use temporal_entity.Entdefine.Definition.{Definition}
use temporal_entity.Entdefine.Loop.{
  Machine, executed, reconciled, finalized, at_drain, at_finalize, at_reconcile, finish_drain,
  finish_reconcile, finish_finalize,
}
use temporal_entity.Entdefine.Effects.Stages.{
  finish_drain-Effect, finish_finalize-Effect, finish_reconcile-Effect,
}
use temporal_entity.Entdefine.Induction.{Finalized, Created}
use temporal_entity.Entdefine.Lifecycle.{IsConsistent, Agrees-at}
use temporal_entity.Entdefine.Serial.{
  Entity, of_parts, entity_of, serve, serve_tick, serve_finalizer, replay_event, replay,
}
use temporal_entity.Entdefine.Serial.Simulation.{
  finish_drain-entity, finish_finalize-entity, finish_reconcile-serves, serve_finalizer-returned,
  returned,
}
use temporal_entity.Entdefine.Serial.Invariant.{
  IsSerial, IsStarting, Runs, Runs-at, Waits-at, after-Effect, IsDispatched,
}
use temporal_entity.Entdefine.Serial.Answers.{replay-quiet, AnswersTruly-quiet}

module _ {W Spec State : Type 0} (patches : Codec (Dict Str)) (workflow_id : Str)
    (d : Definition W Spec State) where
  pub replay-executed :
      (c : CommandEnvelope) (s : Entity W Spec State)
      → replay patches d (executed c ∷ []) s ≡ serve patches d c s
  unfolding replay replay_event
  replay-executed c s = refl

  replay-reconciled :
      (e : Check) (s : Entity W Spec State)
      → replay patches d (reconciled e ∷ []) s ≡ serve_tick patches d s
  unfolding replay replay_event
  replay-reconciled e s = refl

  replay-finalized :
      (e : Check) (s : Entity W Spec State)
      → replay patches d (finalized e ∷ []) s ≡ serve_finalizer patches d s
  unfolding replay replay_event
  replay-finalized e s = refl

  replay-none : (s : Entity W Spec State) → replay patches d [] s ≡ s
  unfolding replay
  replay-none s = refl

  module _ (w0 : W) (env0 : Envelope Spec State) where
    abbrev pub Serial : Machine W Spec State → Type 0
    Serial = IsSerial patches workflow_id d w0 env0

    abbrev pub Dispatched : Machine W Spec State → Type 0
    Dispatched = IsDispatched patches workflow_id d w0 env0

    pub drains-Serial :
        (m : Machine W Spec State)
        → m.pc ≡ at_drain
        → Serial m
        → Dispatched (finish_drain patches d m) × Serial (finish_drain patches d m)
    drains-Serial m h s =
        let r = Runs-at patches workflow_id d w0 env0 m at_drain h refl s in
        let same : entity_of (finish_drain patches d m) ≡ replay patches d [] (entity_of m) =
          finish_drain-entity patches d m ∙ sym (replay-none (entity_of m)) in
        elim (finish_drain-Effect patches d m) [
          | inl e ↦ after-Effect patches workflow_id d w0 env0 e refl refl same tt r
          | inr e ↦ after-Effect patches workflow_id d w0 env0 e refl refl same tt r
        ]

    pub finalizes-Serial :
        (r : W × State × Check) (m : Machine W Spec State)
        → m.pc ≡ at_finalize
        → Finalized patches workflow_id d Serial r m
        → Serial m
        → Dispatched (finish_finalize patches d r m) × Serial (finish_finalize patches d r m)
    finalizes-Serial r m h (f, found, q) s =
        let runs = Runs-at patches workflow_id d w0 env0 m at_finalize h refl s in
        let same : entity_of (finish_finalize patches d r m)
            ≡ replay patches d (finalized r.2 ∷ []) (entity_of m) =
          finish_finalize-entity patches d r m
          ∙ ap (λ x. returned patches d x (entity_of m)) q
          ∙ sym (serve_finalizer-returned patches d f (entity_of m) found)
          ∙ sym (replay-finalized r.2 (entity_of m)) in
        elim (finish_finalize-Effect patches d r m) [
          | inl e ↦ after-Effect patches workflow_id d w0 env0 e refl refl same tt runs
          | inr (g, e) ↦ after-Effect patches workflow_id d w0 env0 e refl refl same tt runs
        ]

    pub reconciles-Serial :
        (m : Machine W Spec State)
        → m.pc ≡ at_reconcile
        → IsConsistent m
        → Dispatched m
        → Serial m
        → Dispatched (finish_reconcile patches d m) × Serial (finish_reconcile patches d m)
    reconciles-Serial m h a p s = elim (finish_reconcile-Effect patches d m) [
      | inl still ↦ rw still (p, s)
      | inr (f, e) ↦
          after-Effect patches workflow_id d w0 env0 e refl refl
            (finish_reconcile-serves patches d m (Agrees-at m at_reconcile h a).0
              ∙ sym (replay-reconciled f (entity_of m)))
            tt (Runs-at patches workflow_id d w0 env0 m at_reconcile h refl s)
    ]

    -- The creation returns: the sequence starts with the entity that it left.
    pub settles-Serial :
        (r : W × State × Check) (m : Machine W Spec State)
        → IsStarting m.pc
        → Created patches workflow_id d Serial r m
        → Serial m
        → (n : Machine W Spec State) → n.history ≡ m.history ++ []
        → entity_of n ≡ returned patches d r (entity_of m)
        → Runs patches workflow_id d w0 env0 n
    settles-Serial r m h (f, cancelled, found, q) s n e same =
        let (came, quiet, true_so_far) = Waits-at patches workflow_id d w0 env0 m h s in
        let start : Entity W Spec State =
          returned patches d (f w0 cancelled env0.spec) (of_parts w0 env0) in
        let still : n.history ≡ m.history = e ∙ append-nil m.history in
        let left : entity_of n ≡ start =
          same
          ∙ ap (λ x. returned patches d x (entity_of m)) q
          ∙ ap (λ (t : Entity W Spec State). returned patches d (f t.world cancelled t.spec) t)
              came in
        (
          start,
          inr (f, cancelled, found, refl),
          left
              ∙ sym (
                  ap (λ l. replay patches d l start) still
                  ∙ replay-quiet patches d m.history start quiet),
          rw still (
              AnswersTruly-quiet patches d m.history (of_parts w0 env0) start quiet refl
                true_so_far),
        )

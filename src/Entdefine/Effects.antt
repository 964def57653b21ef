-- ===== src/Entdefine/Effects.antt =====
-- What each piece of the main loop does to the queue, the handlers, the history and the lifecycle of
-- its entity; of the rest of the envelope it says nothing.
pub mod Commands
pub mod Stages
use mathlib.Core.List.{append-nil}
use temporal_entity.Base.{
  ◌≡◌, Error, wrap, codes, refl, ◌⊎◌, inl, inr, sym, if_keeps, Bool, true, false, none, some, List,
  [], ◌∷◌, ◌++◌, map, Str, Dict, Result, ok, err, Option-cases, Check,
}
use temporal_entity.Entity.State.{Phase}
use temporal_entity.Entity.Command.{Codec}
use temporal_entity.Wire.{CommandEnvelope, record_completed}
use temporal_entity.Entdefine.Context.{view}
use temporal_entity.Entdefine.Definition.{Definition, CommandImpl}
use temporal_entity.Entdefine.Loop.{
  Machine, Pc, Event, executed, rejected, reconciled, finalized, at_top, at_drain, at_finalize,
  closed, completed, failed, upsert, mirror_labels, with_phase, ctx, begin_delete, run_set_labels,
  patch_labels, run_unknown, finish_command, finish_drain, finish_finalize, finish_reconcile,
  settle_init,
}
use temporal_entity.Entdefine.Frame.{
  mutate_all-SameChassis, merge_labels-SameChassis, reject_all_frame, env-mirror_labels,
  history-mirror_labels, pc-mirror_labels, waiting-mirror_labels, env-upsert, history-upsert,
  pc-upsert, waiting-upsert,
}

module _ {W Spec State : Type 0} where
  -- `n` is `m` with more history, at another place, in a phase, with a queue.
  pub record Effect (m n : Machine W Spec State) (events : List Event) (place : Pc Spec State)
      (stage : Phase) (started : Bool) (queue : List CommandEnvelope) : Type 0 where
    pub history : n.history ≡ m.history ++ events
    pub pc : n.pc ≡ place
    pub phase : n.env.phase ≡ stage
    pub initialized : n.env.initialized ≡ started
    pub pending : n.env.pending ≡ queue
    pub waiting : n.waiting ≡ m.waiting
    pub marked : n.env.marked_for_deletion ≡ m.env.marked_for_deletion

  module _ {m n : Machine W Spec State} {events : List Event} {place : Pc Spec State}
      {stage : Phase} {started : Bool} {queue : List CommandEnvelope}
      (e : Effect m n events place stage started queue) (d : Definition W Spec State) where
    -- Publishing afterwards changes no effect.
    pub upsert-Effect : Effect m (upsert d n) events place stage started queue
    upsert-Effect = record {
      history = rw history-upsert e.history;
      pc = rw pc-upsert e.pc;
      phase = rw env-upsert e.phase;
      initialized = rw env-upsert e.initialized;
      pending = rw env-upsert e.pending;
      waiting = rw waiting-upsert e.waiting;
      marked = rw env-upsert e.marked;
    }

    pub mirror_labels-Effect : Effect m (mirror_labels d n) events place stage started queue
    mirror_labels-Effect = record {
      history = rw history-mirror_labels e.history;
      pc = rw pc-mirror_labels e.pc;
      phase = rw env-mirror_labels e.phase;
      initialized = rw env-mirror_labels e.initialized;
      pending = rw env-mirror_labels e.pending;
      waiting = rw waiting-mirror_labels e.waiting;
      marked = rw env-mirror_labels e.marked;
    }

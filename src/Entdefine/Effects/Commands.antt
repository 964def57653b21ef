-- ===== src/Entdefine/Effects/Commands.antt =====
-- What the execution of a command does, in pkg/entdefine/loop.go.
use temporal_entity.Base.{refl, sym, [], ◌∷◌, Str, Dict, Result, ok, err}
use temporal_entity.Entity.Command.{Codec}
use temporal_entity.Wire.{CommandEnvelope, record_completed}
use temporal_entity.Entdefine.Context.{view}
use temporal_entity.Entdefine.Definition.{Definition, CommandImpl}
use temporal_entity.Entdefine.Loop.{
  Machine, executed, at_top, ctx, run_set_labels, patch_labels, run_unknown, finish_command,
}
use temporal_entity.Entdefine.Frame.{mutate_all-SameChassis, merge_labels-SameChassis}
use temporal_entity.Entdefine.Effects.{Effect, mirror_labels-Effect}

module _ {W Spec State : Type 0} (patches : Codec (Dict Str)) (d : Definition W Spec State) where
  patch_labels-Effect :
      (c : CommandEnvelope) (patch : Result (Dict Str)) (m : Machine W Spec State)
      → Effect m
          (patch_labels patches d c patch m)
          (executed c ∷ [])
          m.pc
          m.env.phase
          m.env.initialized
          m.env.pending
  unfolding patch_labels record_completed
  patch_labels-Effect c (ok patch) m =
      let s = merge_labels-SameChassis patch m.env in
      record {
        history = refl;
        pc = refl;
        phase = sym s.phase;
        initialized = sym s.initialized;
        pending = sym s.pending;
        waiting = refl;
        marked = sym s.marked_for_deletion;
      }
  patch_labels-Effect c (err f) m = record {
    history = refl;
    pc = refl;
    phase = refl;
    initialized = refl;
    pending = refl;
    waiting = refl;
    marked = refl;
  }

  pub run_set_labels-Effect :
      (c : CommandEnvelope) (m : Machine W Spec State)
      → Effect m
          (run_set_labels patches d c m)
          (executed c ∷ [])
          m.pc
          m.env.phase
          m.env.initialized
          m.env.pending
  run_set_labels-Effect c m =
      unfold run_set_labels in
      mirror_labels-Effect (patch_labels-Effect c (patches.unmarshal c.payload) m) d

  pub run_unknown-Effect :
      (c : CommandEnvelope) (m : Machine W Spec State)
      → Effect m
          (run_unknown patches d c m)
          (executed c ∷ [])
          m.pc
          m.env.phase
          m.env.initialized
          m.env.pending
  unfolding run_unknown record_completed
  run_unknown-Effect c m = record {
    history = refl;
    pc = refl;
    phase = refl;
    initialized = refl;
    pending = refl;
    waiting = refl;
    marked = refl;
  }

  pub finish_command-Effect :
      (cmd : CommandImpl W Spec State) (c : CommandEnvelope) (m : Machine W Spec State)
      → Effect m
          (finish_command patches d cmd c m)
          (executed c ∷ [])
          at_top
          m.env.phase
          m.env.initialized
          m.env.pending
  unfolding finish_command record_completed
  finish_command-Effect cmd c m =
      let (w, us, res) = cmd.exec m.world (view (ctx m)) c.payload in
      let s = mutate_all-SameChassis us (ctx m) in
      let e =
        mirror_labels-Effect {m = m} {stage = m.env.phase} {started = m.env.initialized}
          {queue = m.env.pending}
          (record {
            history = refl;
            pc = refl;
            phase = sym s.phase;
            initialized = sym s.initialized;
            pending = sym s.pending;
            waiting = refl;
            marked = sym s.marked_for_deletion;
          })
          d in
      record {
        history = e.history;
        pc = refl;
        phase = e.phase;
        initialized = e.initialized;
        pending = e.pending;
        waiting = e.waiting;
        marked = e.marked;
      }

-- ===== src/Entdefine/Induction.antt =====
-- Invariants of a run: what each piece of the main loop and each message has to keep. The induction
-- is in the module below.
pub mod Steps
use mathlib.Core.Path.{subst}
use temporal_entity.Base.{
  Bool, ◌≡◌, refl, ◌⊎◌, inl, inr, true, false, not, ◌||◌, Option, none, some, List, [], ◌∷◌, Str,
  Dict, lookup, contains, is_nil, nil_of_is_nil, guarded, if_keeps, ◌==◌, Check, Option-cases,
  Bool-cases, ltb,
}
use temporal_entity.Entity.Id.{RequestId}
use temporal_entity.Entity.State.{set_labels_command_name}
use temporal_entity.Entity.Command.{Codec, CommandName}
use temporal_entity.Wire.{CommandEnvelope, UpdateArgs, OpResult}
use temporal_entity.Entdefine.Definition.{Definition, CommandImpl}
use temporal_entity.Entdefine.Loop.{
  Machine, Pc, Action, Reach, here, next, act, proceeds, inits, cancels_init, ticks, updates,
  resumes, deletes, suggests, at_init, at_cancelled_init, at_top, at_command, at_drain, at_finalize,
  at_continue, at_idle, at_reconcile, closed, continued, go, note, answered, is_blocked, iterate,
  next_command, dispatch, begin_delete, run_set_labels, run_unknown, with_pending, can_wanted,
  finish_command, finish_drain, finish_finalize, finish_reconcile, settle_init, wake_condition,
  accept_update, receive_update, validate_update, update_result, erase_one, resume, receive_delete,
  proceed_from, init_from, cancel_from, tick_from,
}

module _ {W Spec State : Type 0} (patches : Codec (Dict Str)) (workflow_id : Str)
    (d : Definition W Spec State) (P : Machine W Spec State → Type 0) where
  -- What the finalizer and the creation returned.
  abbrev pub Finalized : W × State × Check → Machine W Spec State → Type 0
  Finalized r m =
      (f : W → State → W × State × Check) × (d.finalize ≡ some f) × (r ≡ f m.world m.env.state)

  abbrev pub Created : W × State × Check → Machine W Spec State → Type 0
  Created r m =
      (f : W → Bool → Spec → W × State × Check) × (cancelled : Bool) × (d.init ≡ some f)
      × (r ≡ f m.world cancelled m.env.spec)

  pub record Kept : Type 0 where
    pub begins_delete :
        (m : Machine W Spec State)
        → m.pc ≡ at_top
        → m.env.marked_for_deletion ≡ true
        → P m
        → P (begin_delete patches d m)
    pub labels :
        (c : CommandEnvelope) (cs : List CommandEnvelope) (m : Machine W Spec State)
        → m.pc ≡ at_top
        → m.env.marked_for_deletion ≡ false
        → m.env.pending ≡ c ∷ cs
        → (c.name == set_labels_command_name) ≡ true
        → P m
        → P (run_set_labels patches d c (with_pending patches d cs m))
    pub unknowns :
        (c : CommandEnvelope) (cs : List CommandEnvelope) (m : Machine W Spec State)
        → m.pc ≡ at_top
        → m.env.marked_for_deletion ≡ false
        → m.env.pending ≡ c ∷ cs
        → (c.name == set_labels_command_name) ≡ false
        → lookup c.name d.commands ≡ none
        → P m
        → P (run_unknown patches d c (with_pending patches d cs m))
    pub takes :
        (c : CommandEnvelope) (cs : List CommandEnvelope) (m : Machine W Spec State)
        → m.pc ≡ at_top
        → m.env.marked_for_deletion ≡ false
        → m.env.pending ≡ c ∷ cs
        → (c.name == set_labels_command_name) ≡ false
        → P m
        → P (go (at_command c) (with_pending patches d cs m))
    pub rolls :
        (m : Machine W Spec State)
        → m.pc ≡ at_top
        → m.env.marked_for_deletion ≡ false
        → m.env.pending ≡ []
        → can_wanted d m ≡ true
        → P m
        → P (go at_continue m)
    pub idles :
        (m : Machine W Spec State)
        → m.pc ≡ at_top
        → m.env.marked_for_deletion ≡ false
        → m.env.pending ≡ []
        → P m
        → P (go at_idle m)
    pub commands :
        (cmd : CommandImpl W Spec State) (c : CommandEnvelope) (m : Machine W Spec State)
        → m.pc ≡ at_command c
        → lookup c.name d.commands ≡ some cmd
        → P m
        → P (finish_command patches d cmd c m)
    pub drains :
        (m : Machine W Spec State)
        → m.pc ≡ at_drain
        → m.waiting ≡ []
        → P m
        → P (finish_drain patches d m)
    pub finalizes :
        (r : W × State × Check) (m : Machine W Spec State)
        → m.pc ≡ at_finalize
        → Finalized r m
        → P m
        → P (finish_finalize patches d r m)
    pub continues :
        (m : Machine W Spec State)
        → m.pc ≡ at_continue
        → m.waiting ≡ []
        → P m
        → P (go (closed (continued m.env)) m)
    pub wakes : (m : Machine W Spec State) → m.pc ≡ at_idle → P m → P (go at_top m)
    pub expires : (m : Machine W Spec State) → m.pc ≡ at_idle → P m → P (go at_reconcile m)
    pub reconciles :
        (m : Machine W Spec State) → m.pc ≡ at_reconcile → P m → P (finish_reconcile patches d m)
    pub settles :
        (r : W × State × Check) (m : Machine W Spec State)
        → (m.pc ≡ at_init) ⊎ (m.pc ≡ at_cancelled_init)
        → Created r m
        → P m
        → P (settle_init patches d r m)
    pub cancels :
        (m : Machine W Spec State)
        → m.pc ≡ at_init
        → m.env.marked_for_deletion ≡ true
        → P m
        → P (go at_cancelled_init m)
    pub accepts :
        (name : CommandName) (args : UpdateArgs) (m : Machine W Spec State)
        → is_blocked m ≡ true
        → validate_update patches workflow_id d name args m ≡ some none
        → P m
        → P (accept_update name args m)
    pub answers :
        (id : RequestId) (r : OpResult) (m : Machine W Spec State)
        → is_blocked m ≡ true
        → contains id m.waiting ≡ true
        → lookup id m.env.completed ≡ some r
        → P m
        → P (note (answered id (update_result r)) (record m { waiting = erase_one id m.waiting }))
    pub deletions : (m : Machine W Spec State) → is_blocked m ≡ true → P m → P (receive_delete m)
    pub suggestions :
        (m : Machine W Spec State) → is_blocked m ≡ true → P m → P (record m { suggested = true })

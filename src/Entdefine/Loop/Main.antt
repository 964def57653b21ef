-- ===== src/Entdefine/Loop/Main.antt =====
-- The main coroutine of `workflowFn`: creation, the loop and its branches. Each function is the code
-- from one blocking point to the next.
use temporal_entity.Base.{
  ◌+◌, Bool, true, false, not, ◌||◌, Option, none, some, List, [], ◌∷◌, ◌++◌, codes, ◌==◌, map,
  Dict, lookup, is_nil, Error, Result, ok, err, Check, new_error, wrap, quote, Str, if◌then◌else◌,
}
use temporal_entity.Entity.State.{Phase, set_labels_command_name}
use temporal_entity.Entity.Command.{Payload, Codec}
use temporal_entity.Wire.{Envelope, CommandEnvelope, record_completed, merge_labels}
use temporal_entity.Entdefine.Context.{view, mutate_all}
use temporal_entity.Entdefine.Definition.{Definition, CommandImpl}
use temporal_entity.Entdefine.Attributes.{Attributes}
use temporal_entity.Entdefine.Loop.Run.{
  Machine, completed, failed, at_init, at_top, at_command, at_drain, at_finalize, at_continue,
  at_idle, closed, executed, rejected, reconciled, finalized, with_phase, go, note, ctx, with_ctx,
  upsert, mirror_labels, can_wanted,
}

abbrev pub rejected_error : CommandEnvelope → Error
rejected_error c = new_error (codes "command " ++ (c.name ++ codes " rejected: entity deleted"))

abbrev pub unknown_error : CommandEnvelope → Error
unknown_error c = new_error (codes "unknown command " ++ quote c.name)

-- An outcome as the value and the error that `RecordCompleted` takes.
abbrev pub value_of : Result Payload → Payload
value_of (ok r) = r
value_of (err e) = []

abbrev pub error_of {ℓ} : {A : Type ℓ} → Result A → Option Error
error_of (ok r) = none
error_of (err e) = some e

-- `for _, c := range env.Pending { env.RecordCompleted(...) }`
unfoldable pub reject_all :
    {Spec State : Type 0} → List CommandEnvelope → Envelope Spec State → Envelope Spec State
reject_all [] env = env
reject_all (c ∷ cs) env =
    reject_all cs (record_completed c.request_id [] (some (rejected_error c)) env)

-- `patches` is `encoding/json` at `map[string]string`.
module _ {W Spec State : Type 0} (patches : Codec (Dict Str)) (d : Definition W Spec State) where
  become_ready : Machine W Spec State → Machine W Spec State
  unfolding upsert
  become_ready m =
      go at_top
        (upsert d (record m { env = record m.env { initialized = true; phase = Phase.ready } }))

  -- From the entry to the first blocking point; the attributes are those that the server holds.
  unfoldable pub begin_run : W → Envelope Spec State → Option Attributes → Machine W Spec State
  unfolding become_ready upsert
  begin_run w env published =
      let m : Machine W Spec State = record {
        world = w;
        env = env;
        labels_dirty = false;
        processed = 0;
        pc = at_top;
        waiting = [];
        suggested = false;
        published = published;
        history = [];
      } in
      if env.initialized
      then m
      else let m' = upsert d (with_phase Phase.creating m) in
        elim d.init [ none ↦ become_ready m' | some init ↦ go at_init m' ]

  -- The creation after `initDone`.
  unfoldable pub settle_init : W × State × Check → Machine W Spec State → Machine W Spec State
  unfolding become_ready upsert
  settle_init (w, st, none) m =
      become_ready (record m { world = w; env = record m.env { state = st } })
  settle_init (w, st, some e) m =
      let m' = record m { world = w; env = record m.env { state = st } } in
      if m.env.marked_for_deletion
      then go at_top m'
      else go (closed (failed (wrap (codes "entity init") e)))
          (upsert d (with_phase Phase.create_failed m'))

  -- The built-in command before its mirror: the decoded patch is merged and the outcome recorded.
  unfoldable pub patch_labels :
      CommandEnvelope → Result (Dict Str) → Machine W Spec State → Machine W Spec State
  patch_labels c (err e) m = note (executed c) (record m {
    env = record_completed c.request_id [] (some e) m.env;
    processed = m.processed + 1;
  })
  patch_labels c (ok patch) m =
      let (env, changed) = merge_labels patch m.env in
      note (executed c) (record m {
        env = record_completed c.request_id [] none env;
        labels_dirty = changed || m.labels_dirty;
        processed = m.processed + 1;
      })

  -- The built-in command.
  unfoldable pub run_set_labels : CommandEnvelope → Machine W Spec State → Machine W Spec State
  unfolding patch_labels mirror_labels
  run_set_labels c m = mirror_labels d (patch_labels c (patches.unmarshal c.payload) m)

  -- `cmd.exec` and what follows it.
  unfoldable pub finish_command :
      CommandImpl W Spec State → CommandEnvelope → Machine W Spec State → Machine W Spec State
  unfolding mirror_labels
  finish_command cmd c m =
      let (w, us, res) = cmd.exec m.world (view (ctx m)) c.payload in
      let m' = with_ctx (mutate_all us (ctx m)) m in
      go at_top (
        mirror_labels d (
          note (executed c) (record m' {
            world = w;
            env = record_completed c.request_id (value_of res) (error_of res) m'.env;
            processed = m.processed + 1;
          })))

  -- The deletion path, up to its wait.
  unfoldable pub begin_delete : Machine W Spec State → Machine W Spec State
  unfolding reject_all upsert
  begin_delete m =
      let m' = upsert d (with_phase Phase.deleting m) in
      go at_drain (record m' {
        env = record (reject_all m.env.pending m'.env) { pending = [] };
        history = m.history ++ map rejected m.env.pending;
      })

  -- An unknown command.
  unfoldable pub run_unknown : CommandEnvelope → Machine W Spec State → Machine W Spec State
  run_unknown c m =
      note (executed c)
        (record m { env = record_completed c.request_id [] (some (unknown_error c)) m.env })

  -- The next pending command, which has been taken off the queue.
  unfoldable pub dispatch : CommandEnvelope → Machine W Spec State → Machine W Spec State
  unfolding run_set_labels run_unknown
  dispatch c m =
      if c.name == set_labels_command_name
      then run_set_labels c m
      else elim (lookup c.name d.commands) [
        | none ↦ run_unknown c m
        | some cmd ↦ go (at_command c) m
      ]

  abbrev pub with_pending : List CommandEnvelope → Machine W Spec State → Machine W Spec State
  with_pending cs m = record m { env = record m.env { pending = cs } }

  -- The rest of a round, on the queue: a command, continue-as-new or the idle wait.
  unfoldable pub next_command : List CommandEnvelope → Machine W Spec State → Machine W Spec State
  unfolding dispatch can_wanted
  next_command [] m = if can_wanted d m then go at_continue m else go at_idle m
  next_command (c ∷ cs) m = dispatch c (with_pending cs m)

  -- One round from the head of the loop.
  unfoldable pub iterate : Machine W Spec State → Machine W Spec State
  unfolding begin_delete next_command
  iterate m = if m.env.marked_for_deletion then begin_delete m else next_command m.env.pending m

  become_deleted : Machine W Spec State → Machine W Spec State
  unfolding upsert
  become_deleted m = go (closed completed) (upsert d (with_phase Phase.deleted m))

  -- The deletion path after its wait.
  unfoldable pub finish_drain : Machine W Spec State → Machine W Spec State
  unfolding become_deleted
  finish_drain m = elim d.finalize [ none ↦ become_deleted m | some f ↦ go at_finalize m ]

  unfoldable pub finish_finalize : W × State × Check → Machine W Spec State → Machine W Spec State
  unfolding become_deleted upsert
  finish_finalize (w, st, e) m =
      let m' = note (finalized e) (record m { world = w; env = record m.env { state = st } }) in
      elim e [
        | none ↦ become_deleted m'
        | some f ↦
            go (closed (failed (wrap (codes "entity finalize") f)))
              (upsert d (with_phase Phase.delete_failed m'))
      ]

  -- A failed tick is only logged.
  unfoldable pub finish_reconcile : Machine W Spec State → Machine W Spec State
  finish_reconcile m = elim d.reconcile [
    | none ↦ m
    | some f ↦
        let (w, us, e) = f m.world (view (ctx m)) in
        go at_top (note (reconciled e) (record (with_ctx (mutate_all us (ctx m)) m) { world = w }))
  ]

  -- The condition of the idle wait.
  unfoldable pub wake_condition : Machine W Spec State → Bool
  unfolding can_wanted
  wake_condition m = not (is_nil m.env.pending) || m.env.marked_for_deletion || can_wanted d m

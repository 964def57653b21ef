-- ===== src/Entdefine/Loop/Messages.antt =====
-- The message handlers of `workflowFn` (updates, the delete signal, the describe query), and the
-- steps of a run: what the main coroutine, the handlers and the server can do next.
use temporal_entity.Base.{
  ◌≡◌, Bool, true, false, not, ◌||◌, Option, none, some, List, [], ◌∷◌, ◌++◌, codes, ◌==◌, Dict,
  lookup, has, contains, is_nil, length, ltb, Error, Result, ok, err, Check, new_error, wrap, Str,
  if◌then◌else◌,
}
use temporal_entity.Entity.Id.{RequestId}
use temporal_entity.Entity.State.{DescribeOut, set_labels_command_name}
use temporal_entity.Entity.Command.{CommandName, QueryName, Payload, Codec}
use temporal_entity.Wire.{UpdateArgs, CommandEnvelope, OpResult, snapshot}
use temporal_entity.Entdefine.Definition.{Definition, CommandImpl}
use temporal_entity.Entdefine.Loop.Run.{
  Pc, Machine, continued, at_init, at_cancelled_init, at_top, at_command, at_drain, at_finalize,
  at_continue, at_idle, at_reconcile, closed, enqueued, answered, go, note,
}
use temporal_entity.Entdefine.Loop.Main.{
  settle_init, finish_command, iterate, finish_drain, finish_finalize, finish_reconcile,
  wake_condition,
}

-- `updateResult`
unfoldable pub update_result : OpResult → Result Payload
unfolding ◌==◌
update_result r = if not (r.err == []) then err (new_error r.err) else ok r.result

-- one handler fewer for a request id
unfoldable pub erase_one : RequestId → List RequestId → List RequestId
unfolding ◌==◌
erase_one id [] = []
erase_one id (k ∷ ks) = let rest = erase_one id ks in if k == id then ks else k ∷ rest

module _ {W Spec State : Type 0} where
  -- The describe query, at any time.
  unfoldable pub describe : Str → Machine W Spec State → DescribeOut Spec State
  describe run_id m = record {
    phase = m.env.phase;
    spec = m.env.spec;
    state = m.env.state;
    labels = m.env.labels;
    pending_commands = length m.env.pending;
    marked_for_deletion = m.env.marked_for_deletion;
    run_id = run_id;
  }

  -- A query of a declared name, at any time, on a snapshot; `none` is the SDK's answer to a name that
  -- nothing handles.
  unfoldable pub answer_query :
      Definition W Spec State → QueryName → Payload → Machine W Spec State → Option (Result Payload)
  unfolding snapshot
  answer_query d name payload m = elim (lookup name d.queries) [
    | none ↦ none
    | some q ↦ some (q.exec (snapshot m.env) payload)
  ]

  -- An accepted update: the handlers of the commands and of set-labels are the same up to the name.
  unfoldable pub accept_update :
      CommandName → UpdateArgs → Machine W Spec State → Machine W Spec State
  unfolding update_result
  accept_update name args m = elim (lookup args.request_id m.env.completed) [
    | some r ↦ note (answered args.request_id (update_result r)) m
    | none ↦
        let c : CommandEnvelope = record {
          request_id = args.request_id;
          name = name;
          payload = args.payload;
        } in
        note (enqueued c) (record m {
          env = record m.env { pending = m.env.pending ++ c ∷ [] };
          waiting = m.waiting ++ args.request_id ∷ [];
        })
  ]

  -- The handler of a request wakes up once its outcome is recorded.
  unfoldable pub resume : RequestId → Machine W Spec State → Option (Machine W Spec State)
  unfolding update_result erase_one contains
  resume id m =
      if contains id m.waiting
      then elim (lookup id m.env.completed) [
        | none ↦ none
        | some r ↦
            some
              (note (answered id (update_result r)) (record m { waiting = erase_one id m.waiting }))
      ]
      else none

  -- The delete signal.
  unfoldable pub receive_delete : Machine W Spec State → Machine W Spec State
  receive_delete m = record m { env = record m.env { marked_for_deletion = true } }

module _ {W Spec State : Type 0} (patches : Codec (Dict Str)) (workflow_id : Str)
    (d : Definition W Spec State) where
  deleting_error : Error
  deleting_error = new_error (codes "entity " ++ (workflow_id ++ codes " is being deleted"))

  -- The validator of set-labels.
  unfoldable pub validate_labels : UpdateArgs → Machine W Spec State → Check
  unfolding deleting_error
  validate_labels args m =
      if m.env.marked_for_deletion
      then some deleting_error
      else elim (patches.unmarshal args.payload) [
        | err e ↦ some (wrap (codes "decode label patch") e)
        | ok patch ↦ none
      ]

  -- The validator of a command.
  unfoldable pub validate_command :
      CommandImpl W Spec State → UpdateArgs → Machine W Spec State → Check
  unfolding deleting_error
  validate_command cmd args m =
      if m.env.marked_for_deletion
      then some deleting_error
      else if has args.request_id m.env.completed
      then none
      else elim cmd.validate [ none ↦ none | some v ↦ v (snapshot m.env) args.payload ]

  -- What an update of a name meets: no handler at all, or the verdict of its validator.
  unfoldable pub validate_update : CommandName → UpdateArgs → Machine W Spec State → Option Check
  unfolding validate_labels validate_command
  validate_update name args m =
      if name == set_labels_command_name
      then some (validate_labels args m)
      else elim (lookup name d.commands) [
        | none ↦ none
        | some cmd ↦ some (validate_command cmd args m)
      ]

  -- An update arrives: a rejected one leaves no trace.
  unfoldable pub receive_update :
      CommandName → UpdateArgs → Machine W Spec State → Machine W Spec State
  unfolding validate_update accept_update
  receive_update name args m = elim (validate_update name args m) [
    | none ↦ m
    | some (some e) ↦ m
    | some none ↦ accept_update name args m
  ]

  -- The main coroutine goes on from where it stands, if what it waits for holds.
  unfoldable pub proceed_from : Pc Spec State → Machine W Spec State → Option (Machine W Spec State)
  unfolding iterate finish_command finish_drain finish_finalize finish_reconcile wake_condition
  proceed_from at_top m = some (iterate patches d m)
  proceed_from (at_command c) m = elim (lookup c.name d.commands) [
    | none ↦ none
    | some cmd ↦ some (finish_command patches d cmd c m)
  ]
  proceed_from at_drain m = if is_nil m.waiting then some (finish_drain patches d m) else none
  proceed_from at_finalize m = elim d.finalize [
    | none ↦ none
    | some f ↦ some (finish_finalize patches d (f m.world m.env.state) m)
  ]
  proceed_from at_continue m =
      if is_nil m.waiting then some (go (closed (continued m.env)) m) else none
  proceed_from at_idle m = if wake_condition patches d m then some (go at_top m) else none
  proceed_from at_reconcile m = some (finish_reconcile patches d m)
  proceed_from _ m = none

  unfoldable pub proceed : Machine W Spec State → Option (Machine W Spec State)
  unfolding proceed_from
  proceed m = proceed_from m.pc m

  -- `d.init` returns; after `cancelInit` its context is cancelled.
  unfoldable pub init_from : Pc Spec State → Machine W Spec State → Option (Machine W Spec State)
  unfolding settle_init
  init_from at_init m = elim d.init [
    | none ↦ none
    | some f ↦ some (settle_init patches d (f m.world false m.env.spec) m)
  ]
  init_from at_cancelled_init m = elim d.init [
    | none ↦ none
    | some f ↦ some (settle_init patches d (f m.world true m.env.spec) m)
  ]
  init_from _ m = none

  unfoldable pub finish_init : Machine W Spec State → Option (Machine W Spec State)
  unfolding init_from
  finish_init m = init_from m.pc m

  -- `!initDone`: the deletion cancels the creation.
  unfoldable pub cancel_from : Pc Spec State → Machine W Spec State → Option (Machine W Spec State)
  cancel_from at_init m = if m.env.marked_for_deletion then some (go at_cancelled_init m) else none
  cancel_from _ m = none

  unfoldable pub cancel_init : Machine W Spec State → Option (Machine W Spec State)
  unfolding cancel_from
  cancel_init m = cancel_from m.pc m

  -- The idle wait times out.
  unfoldable pub tick_from : Pc Spec State → Machine W Spec State → Option (Machine W Spec State)
  unfolding wake_condition
  tick_from at_idle m =
      if wake_condition patches d m || not (ltb 0 d.reconcile_every)
      then none
      else elim d.reconcile [ none ↦ none | some f ↦ some (go at_reconcile m) ]
  tick_from _ m = none

  unfoldable pub tick : Machine W Spec State → Option (Machine W Spec State)
  unfolding tick_from
  tick m = tick_from m.pc m

-- Coroutines switch only where the main one is blocked: a wait for the handlers blocks only if there
-- are some, and nothing arrives after the end.
abbrev pub is_blocked_at : {Spec State : Type 0} → Pc Spec State → List RequestId → Bool
is_blocked_at at_top waiting = false
is_blocked_at (closed o) waiting = false
is_blocked_at at_drain waiting = not (is_nil waiting)
is_blocked_at at_continue waiting = not (is_nil waiting)
is_blocked_at _ waiting = true

abbrev pub is_blocked : {W Spec State : Type 0} → Machine W Spec State → Bool
is_blocked m = is_blocked_at m.pc m.waiting

pub data Action : Type 0 where
  proceeds inits cancels_init ticks : Action
  updates : CommandName → UpdateArgs → Action
  resumes : RequestId → Action
  deletes suggests : Action

module _ {W Spec State : Type 0} (patches : Codec (Dict Str)) (workflow_id : Str)
    (d : Definition W Spec State) where
  -- A message is handled if the main coroutine is blocked.
  abbrev when_blocked :
      Machine W Spec State → Option (Machine W Spec State) → Option (Machine W Spec State)
  when_blocked m next = if is_blocked m then next else none

  -- One step of a run, `none` where the action cannot happen.
  unfoldable pub act : Action → Machine W Spec State → Option (Machine W Spec State)
  unfolding proceed finish_init cancel_init tick receive_update resume receive_delete
  act proceeds m = proceed patches workflow_id d m
  act inits m = finish_init patches workflow_id d m
  act cancels_init m = cancel_init patches workflow_id d m
  act ticks m = tick patches workflow_id d m
  act (updates name args) m =
      when_blocked m (some (receive_update patches workflow_id d name args m))
  act (resumes id) m = when_blocked m (resume id m)
  act deletes m = when_blocked m (some (receive_delete m))
  act suggests m = when_blocked m (some (record m { suggested = true }))

  -- The machines that a run can reach.
  pub data Reach (m : Machine W Spec State) : Machine W Spec State → Type 0 where
    here : Reach m m
    next : {n o : Machine W Spec State} (a : Action) → Reach m n → act a n ≡ some o → Reach m o

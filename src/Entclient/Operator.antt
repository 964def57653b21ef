-- ===== src/Entclient/Operator.antt =====
-- pkg/entclient/operator.go: entities by their wire identity, without their definition.
use temporal_entity.Base.{
  none, some, [], ◌++◌, ◌||◌, Str, codes, Dict, ◌==◌, Result, ok, err, Check, wrap, new_error,
  if◌then◌else◌,
}
use temporal_entity.Entity.Id.{ResourceId, RequestId, KindName, validate_resource}
use temporal_entity.Entity.State.{describe_query_name, set_labels_command_name}
use temporal_entity.Entity.Command.{Payload, Codec, CommandName, QueryName}
use temporal_entity.Entclient.Server.{Server, use_existing, new_envelope}
use temporal_entity.Entclient.Typed.{await_update}

-- The server's specs and states are raw JSON here; `run_id` is `GetID` of a run.
module _ {W H R : Type 0} (server : Server W H R Payload Payload) (run_id : R → Str)
    (patches : Codec (Dict Str)) where
  -- `if requestID == "" { requestID = uuid.NewString() }`
  unfoldable pub fill_request_id : RequestId → W → W × RequestId
  unfolding ◌==◌
  fill_request_id request_id w = if request_id == [] then server.new_uuid w else (w, request_id)

  -- `ExecRaw`
  unfoldable pub exec_raw : Str → CommandName → Payload → RequestId → W → W × Result Payload
  unfolding ◌==◌ fill_request_id await_update
  exec_raw workflow_id command payload request_id w =
      if workflow_id == [] || command == []
      then (w, err (new_error (codes "workflow id and command are required")))
      else let (v, id) = fill_request_id request_id w in
        await_update server
          (server.update workflow_id command (record { request_id = id; payload = payload }) v)

  -- `ReadRaw`
  unfoldable pub read_raw : Str → QueryName → Payload → W → W × Result Payload
  unfolding ◌==◌
  read_raw workflow_id query payload w =
      if workflow_id == [] || query == []
      then (w, err (new_error (codes "workflow id and query are required")))
      else server.query workflow_id query (some payload) w

  -- `DescribeRaw`
  unfoldable pub describe_raw : Str → W → W × Result Payload
  describe_raw workflow_id w = server.query workflow_id describe_query_name none w

  -- `SetLabelsRaw`
  unfoldable pub set_labels_raw : Str → Dict Str → W → W × Check
  unfolding exec_raw
  set_labels_raw workflow_id patch w = elim (patches.marshal patch) [
    | err e ↦ (w, some (wrap (codes "encode label patch") e))
    | ok payload ↦
        let (v, r) = exec_raw workflow_id set_labels_command_name payload [] w in
        (v, elim r [ err e ↦ some e | ok out ↦ none ])
  ]

  -- `ApplyRaw`
  unfoldable pub apply_raw : KindName → ResourceId → Str → Payload → Dict Str → W → W × Result Str
  unfolding ◌==◌ validate_resource
  apply_raw kind id task_queue spec labels w =
      if kind == [] || id == []
      then (w, err (new_error (codes "kind and id are required")))
      else elim (validate_resource id) [
        | some e ↦ (w, err e)
        | none ↦
            let (v, r) =
              server.execute
                (record {
                  id = kind ++ (codes "/" ++ id);
                  task_queue = task_queue;
                  conflict_policy = use_existing;
                })
                kind (new_envelope [] spec labels) w in
            (v, elim r [ err e ↦ err e | ok run ↦ ok (run_id run) ])
      ]

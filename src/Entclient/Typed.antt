-- ===== src/Entclient/Typed.antt =====
-- pkg/entclient/client.go: the typed operations of a client, and decoding.
use temporal_entity.Base.{
  none, some, List, ◌++◌, Str, codes, Dict, is_nil, Error, Result, ok, err, Check, wrap,
  if◌then◌else◌,
}
use temporal_entity.Entity.Id.{ResourceId, RequestId, validate_resource, validate_request}
use temporal_entity.Entity.State.{DescribeOut, describe_query_name, delete_signal_name}
use temporal_entity.Entity.Command.{Payload, Codec, CommandType}
use temporal_entity.Entclient.Server.{
  Server, Client, StartOption, workflow_id, start_options, apply_start_options, new_envelope,
}
use temporal_entity.Entclient.Retry.{with_can_retry}

-- `handle.Get` after an update, or its error
unfoldable pub await_update :
    {W H R Spec State : Type 0} → Server W H R Spec State → W × Result H → W × Result Payload
await_update server (w, ok h) = server.get h w
await_update server (w, err e) = (w, err e)

module _ {W H R Spec State : Type 0} (server : Server W H R Spec State) (cl : Client W Spec State)
    (no_state : State) where
  -- `CreateOrAttach`
  unfoldable pub create_or_attach : ResourceId → Spec → List StartOption → W → W × Result R
  unfolding validate_resource start_options apply_start_options
  create_or_attach id spec opts w = elim (validate_resource id) [
    | some e ↦ (w, err e)
    | none ↦
        server.execute (start_options cl id) cl.d.kind
          (new_envelope no_state spec (apply_start_options opts)) w
  ]

  -- `Describe`
  unfoldable pub describe :
      Codec (DescribeOut Spec State) → ResourceId → W → W × Result (DescribeOut Spec State)
  unfolding validate_resource workflow_id
  describe codec id w = elim (validate_resource id) [
    | some e ↦ (w, err e)
    | none ↦
        let (v, r) = server.query (workflow_id cl id) describe_query_name none w in
        (v, elim r [ err e ↦ err e | ok p ↦ codec.unmarshal p ])
  ]

  -- `Delete`
  unfoldable pub delete : ResourceId → W → W × Check
  unfolding validate_resource workflow_id
  delete id w = elim (validate_resource id) [
    | some e ↦ (w, some e)
    | none ↦ server.signal (workflow_id cl id) delete_signal_name w
  ]

  module _ {Req Res : Type 0} (type : CommandType Spec State Req Res) (no_result : Res) where
    -- `decodeRaw`, after the call of `get`
    unfoldable pub decode_raw : Result Payload → Result Res
    decode_raw (err e) = err e
    decode_raw (ok raw) = if is_nil raw then ok no_result else elim (type.res_codec.unmarshal raw) [
      | err e ↦ err (wrap (codes "decode result") e)
      | ok res ↦ ok res
    ]

    unfoldable pub encode_error : Error → Error
    encode_error e = wrap (codes "encode " ++ (type.name ++ codes " request")) e

    -- The call that `ExecWithRequestID` retries.
    unfoldable pub send_update : ResourceId → RequestId → Payload → W → W × Result Payload
    unfolding await_update workflow_id
    send_update id request_id payload w = await_update server (
        server.update (workflow_id cl id) type.name
          (record { request_id = request_id; payload = payload }) w)

    -- `ExecWithRequestID`
    unfoldable pub exec_with_request_id : ResourceId → RequestId → Req → W → W × Result Res
    unfolding validate_resource validate_request encode_error send_update with_can_retry decode_raw
    exec_with_request_id id request_id req w = elim (validate_resource id) [
      | some e ↦ (w, err e)
      | none ↦ elim (validate_request request_id) [
        | some e ↦ (w, err e)
        | none ↦ elim (type.req_codec.marshal req) [
          | err e ↦ (w, err (encode_error e))
          | ok payload ↦
              let (v, r) = with_can_retry server.pause (send_update id request_id payload) w in
              (v, decode_raw r)
        ]
      ]
    ]

    -- `Exec`
    unfoldable pub exec : ResourceId → Req → W → W × Result Res
    unfolding exec_with_request_id
    exec id req w =
        let (v, request_id) = server.new_uuid w in exec_with_request_id id request_id req v

    -- The call that `ExecWithStart` retries.
    unfoldable pub send_with_start :
        ResourceId → Spec → Dict Str → RequestId → Payload → W → W × Result Payload
    unfolding await_update start_options
    send_with_start id spec labels request_id payload w = await_update server (
        server.update_with_start (start_options cl id) cl.d.kind (new_envelope no_state spec labels)
          type.name (record { request_id = request_id; payload = payload }) w)

    -- `ExecWithStart`
    unfoldable pub exec_with_start : ResourceId → Spec → Req → List StartOption → W → W × Result Res
    unfolding validate_resource encode_error apply_start_options send_with_start with_can_retry
        decode_raw
    exec_with_start id spec req opts w = elim (validate_resource id) [
      | some e ↦ (w, err e)
      | none ↦ elim (type.req_codec.marshal req) [
        | err e ↦ (w, err (encode_error e))
        | ok payload ↦
            let (v, request_id) = server.new_uuid w in
            let (u, r) =
              with_can_retry server.pause
                (send_with_start id spec (apply_start_options opts) request_id payload) v in
            (u, decode_raw r)
      ]
    ]

    -- `Read`; a query is a request type with a name and codecs, too.
    unfoldable pub read : ResourceId → Req → W → W × Result Res
    unfolding validate_resource encode_error decode_raw workflow_id
    read id req w = elim (validate_resource id) [
      | some e ↦ (w, err e)
      | none ↦ elim (type.req_codec.marshal req) [
        | err e ↦ (w, err (encode_error e))
        | ok payload ↦
            let (v, r) = server.query (workflow_id cl id) type.name (some payload) w in
            (v, decode_raw r)
      ]
    ]

-- ===== src/Entclient/Operating.antt =====
-- pkg/entclient/operator.go against client.go: what each sends.
use mathlib.Core.Path.{fun_ext}
use temporal_entity.Base.{
  ◌≡◌, refl, ap, sym, false, none, [], ◌∷◌, ◌++◌, Str, codes, Dict, ◌==◌, arith, Result, ok,
}
use temporal_entity.Entity.Id.{ResourceId, RequestId, validate_resource, validate_request}
use temporal_entity.Entity.Command.{Payload, Codec, CommandType}
use temporal_entity.Entclient.Server.{Server, Client, workflow_id}
use temporal_entity.Entclient.Retry.{with_can_retry}
use temporal_entity.Entclient.Typed.{send_update, decode_raw, exec_with_request_id}
use temporal_entity.Entclient.Operator.{fill_request_id, exec_raw}

module _ {W H R : Type 0} (server : Server W H R Payload Payload) (run_id : R → Str)
    (patches : Codec (Dict Str)) (cl : Client W Payload Payload) where
  -- A workflow id holds a slash.
  workflow_id-not_empty : (id : ResourceId) → (workflow_id cl id == []) ≡ false
  unfolding workflow_id ◌==◌
  workflow_id-not_empty id = not_empty cl.d.kind id
    where
      not_empty : (k s : Str) → ((k ++ (codes "/" ++ s)) == []) ≡ false
      not_empty [] s = refl
      not_empty (c ∷ k) s = refl

  -- On the workflow id of a resource, with a name and a request id that are not empty, `ExecRaw` makes
  -- the call that `ExecWithRequestID` makes, once.
  pub exec_raw-send_update :
      {Req Res : Type 0} (type : CommandType Payload Payload Req Res) (no_result : Res)
      (id : ResourceId) (request_id : RequestId) (payload : Payload) (w : W)
      → (type.name == []) ≡ false
      → (request_id == []) ≡ false
      → exec_raw server run_id patches (workflow_id cl id) type.name payload request_id w
        ≡ send_update server cl [] type no_result id request_id payload w
  unfolding exec_raw fill_request_id send_update
  exec_raw-send_update type no_result id request_id payload w named known =
      rw (workflow_id-not_empty id, named, exec_raw) (rw (known, fill_request_id) refl)

  valid_request : (r : RequestId) → validate_request r ≡ none → (r == []) ≡ false
  unfolding validate_request
  valid_request r h = ground arith

  -- `ExecWithRequestID` is `ExecRaw` on the encoded request, tried again while it races with
  -- continue-as-new, and then decoded: for a valid resource id, a valid request id, a command with a
  -- name and a request that can be encoded.
  pub exec_with_request_id-exec_raw :
      {Req Res : Type 0} (type : CommandType Payload Payload Req Res) (no_result : Res)
      (id : ResourceId) (request_id : RequestId) (req : Req) (payload : Payload) (w : W)
      → (type.name == []) ≡ false
      → validate_resource id ≡ none
      → validate_request request_id ≡ none
      → type.req_codec.marshal req ≡ ok payload
      → exec_with_request_id server cl [] type no_result id request_id req w ≡ (
          let (v, r) =
            with_can_retry server.pause
              (λ u.
                exec_raw server run_id patches (workflow_id cl id) type.name payload request_id u)
              w in
          (v, decode_raw server cl [] type no_result r))
  unfolding exec_with_request_id
  exec_with_request_id-exec_raw type no_result id request_id req payload w named valid known
        encoded =
      rw (exec_with_request_id, valid, known, encoded)
        (ap
          (λ (call : W → W × Result Payload).
            let (v, r) = with_can_retry server.pause call w in
            (v, decode_raw server cl [] type no_result r))
          (sym (
            fun_ext (λ u.
              exec_raw-send_update type no_result id request_id payload u named
                (valid_request request_id known)))))

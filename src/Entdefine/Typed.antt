-- ===== src/Entdefine/Typed.antt =====
-- pkg/entdefine/definition.go: the closures that `Handle` and `HandleQuery` build, between the JSON
-- of the wire and the typed handlers.
use temporal_entity.Base.{
  Error, none, some, [], codes, ◌++◌, Result, ok, err, Check, wrap, wrap_err, and_then,
}
use temporal_entity.Entity.State.{Snapshot}
use temporal_entity.Entity.Command.{Payload, CommandType}
use temporal_entity.Entdefine.Context.{Handler}

module _ {Spec State Req Res : Type 0} (type : CommandType Spec State Req Res) where
  unfoldable pub decode_error : Error → Error
  decode_error = wrap (codes "decode " ++ (type.name ++ codes " request"))

  -- `json.Marshal` of the result, in both closures
  unfoldable pub encode_result : Result Res → Result Payload
  encode_result (err e) = err e
  encode_result (ok res) =
      wrap_err (codes "encode " ++ (type.name ++ codes " result")) (type.res_codec.marshal res)

  -- The two validation methods that the request's type may have.
  unfoldable pub validate_self : Req → Check
  validate_self req = elim type.self_validator [ none ↦ none | some v ↦ v req ]

  unfoldable pub validate_with : Snapshot Spec State → Req → Check
  validate_with s req = elim type.validator [ none ↦ none | some v ↦ v s req ]

  -- The closure `validate` of `Handle`.
  unfoldable pub base_validate : Snapshot Spec State → Payload → Check
  unfolding decode_error validate_self validate_with
  base_validate s payload = elim (type.req_codec.unmarshal payload) [
    | err e ↦ some (decode_error e)
    | ok req ↦ and_then (validate_self req) (validate_with s req)
  ]

  -- The closure `exec` of `Handle`: decode, run the handler, encode.
  unfoldable pub exec_command :
      {W : Type 0} → Handler W Spec State Req Res → Handler W Spec State Payload Payload
  unfolding decode_error encode_result
  exec_command fn w v payload = elim (type.req_codec.unmarshal payload) [
    | err e ↦ (w, [], err (decode_error e))
    | ok req ↦ let (w', us, res) = fn w v req in (w', us, encode_result res)
  ]

  -- The closure `exec` of `HandleQuery`.
  unfoldable pub exec_query :
      (Snapshot Spec State → Req → Result Res) → Snapshot Spec State → Payload → Result Payload
  unfolding decode_error encode_result
  exec_query fn s payload = elim (type.req_codec.unmarshal payload) [
    | err e ↦ err (decode_error e)
    | ok req ↦ encode_result (fn s req)
  ]

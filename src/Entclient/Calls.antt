-- ===== src/Entclient/Calls.antt =====
-- What the operations of a client send, and what comes back from an entity.
use temporal_entity.Base.{
  ◌==◌, ==_refl, Dict, lookup, arith, ℕ, false, none, some, List, [], ◌∷◌, ◌++◌, ◌≡◌, refl, ap, ◌∙◌,
  Str, codes, is_nil, Result, ok, Check,
}
use temporal_entity.Entity.Id.{ResourceId, RequestId, validate_resource, validate_request}
use temporal_entity.Entity.Command.{Payload, Codec, CommandType}
use temporal_entity.Wire.{CommandEnvelope, OpResult, op_result, record_completed}
use temporal_entity.Wire.Cache.{HasCache}
use temporal_entity.Wire.Cache.Lookup.{lookup-record_completed}
use temporal_entity.Entdefine.Context.{Mutation, Handler, view, mutate_all}
use temporal_entity.Entdefine.Typed.{exec_command, encode_result}
use temporal_entity.Entdefine.Definition.{Definition, command_impl}
use temporal_entity.Entdefine.Frame.{env-mirror_labels, mutate_all-SameChassis}
use temporal_entity.Entdefine.Dedup.{HasCache-of_same}
use temporal_entity.Entdefine.Loop.{
  Machine, ctx, finish_command, mirror_labels, upsert, update_result, value_of, error_of,
}
use temporal_entity.Entclient.Server.{Server, Client, workflow_id}
use temporal_entity.Entclient.Retry.{with_can_retry}
use temporal_entity.Entclient.Typed.{await_update, send_update, decode_raw, exec_with_request_id}

append_cancel : (p s t : Str) → p ++ s ≡ p ++ t → s ≡ t
append_cancel [] s t h = h
append_cancel (c ∷ p) s t h = let k : p ++ s ≡ p ++ t = cc h in append_cancel p s t k

-- Two resources of one kind never share a workflow id.
pub workflow_id_injective :
    {W Spec State : Type 0} (cl : Client W Spec State) (a b : ResourceId)
    → workflow_id cl a ≡ workflow_id cl b
    → a ≡ b
unfolding workflow_id
workflow_id_injective cl a b h =
    append_cancel (codes "/") a b (append_cancel cl.d.kind (codes "/" ++ a) (codes "/" ++ b) h)

module _ {W H R Spec State : Type 0} (server : Server W H R Spec State) (cl : Client W Spec State)
    (no_state : State) {Req Res : Type 0} (type : CommandType Spec State Req Res)
    (no_result : Res) where
  sent_once :
      (pause : ℕ → W → W × Check) (call : W → W × Result Payload) (w u : W) (answer : Payload)
      → call w ≡ (u, ok answer)
      → with_can_retry pause call w ≡ (u, ok answer)
  unfolding with_can_retry
  sent_once pause call w u answer h = rw h (ap (λ (x : W × Result Payload). (x.0, ok answer)) h)

  pub decoded_answer :
      (res : Res) (answer : Payload)
      → is_nil answer ≡ false
      → type.res_codec.unmarshal answer ≡ ok res
      → decode_raw server cl no_state type no_result (ok answer) ≡ ok res
  unfolding decode_raw
  decoded_answer res answer something understood = rw something (rw understood refl)

  module _ {V : Type 0} (patches : Codec (Dict Str)) (d : Definition V Spec State)
      (fn : Handler V Spec State Req Res) (request_id : RequestId) (m : Machine V Spec State)
      (world' : V) (us : List (Mutation Spec State)) (req : Req) (res : Res)
      (payload answer : Payload) (decoded : type.req_codec.unmarshal payload ≡ ok req)
      (ran : fn m.world (view (ctx m)) req ≡ (world', us, ok res))
      (answered : type.res_codec.marshal res ≡ ok answer) where
    abbrev call : CommandEnvelope
    call = record { request_id = request_id; name = type.name; payload = payload }

    -- The entity after the command.
    abbrev served : Machine V Spec State
    served = finish_command patches d (command_impl type fn) call m

    executed_as :
        (command_impl type fn).exec m.world (view (ctx m)) payload ≡ (world', us, ok answer)
    unfolding command_impl exec_command encode_result
    executed_as = rw (decoded, exec_command) (rw ran (rw answered refl))

    world-served : served.world ≡ world'
    unfolding finish_command mirror_labels upsert
    world-served = rw (executed_as, finish_command) (ground arith)

    env-served : served.env ≡ record_completed request_id answer none (mutate_all us (ctx m)).env
    unfolding finish_command
    env-served =
        env-mirror_labels d _
        ∙ ap
            (λ (r : V × List (Mutation Spec State) × Result Payload).
              record_completed request_id (value_of r.2) (error_of r.2)
                (mutate_all r.1 (ctx m)).env)
            executed_as

    remembers_answer :
        (o : OpResult)
        → HasCache m.env
        → lookup request_id served.env.completed ≡ some o
        → o ≡ op_result answer none
    remembers_answer o cache found =
        let env = (mutate_all us (ctx m)).env in
        let s = mutate_all-SameChassis us (ctx m) in
        let reads =
          lookup-record_completed request_id request_id answer none env
            (HasCache-of_same m.env env s.completed s.completed_order cache) in
        let says : lookup request_id (record_completed request_id answer none env).completed
            ≡ some (op_result answer none) =
          reads ∙ (rw (==_refl request_id) refl) in
        cc (found, says, ap (λ e. lookup request_id e.completed) env-served)

  -- A request reaches the handler of its command, and the handler's result comes back: if the resource
  -- id and the request id are valid, the codecs give back what they encoded, the result is not encoded
  -- as nothing, the cache of the entity is well formed, the server hands the update's command to the
  -- entity, which runs it, and hands its remembered outcome back, then `ExecWithRequestID` returns what
  -- the handler returned for the request itself, and the entity's world is what the handler left.
  pub exec_reaches_handler :
      {V : Type 0} (patches : Codec (Dict Str)) (d : Definition V Spec State)
      (fn : Handler V Spec State Req Res) (m : Machine V Spec State) (world' : V)
      (us : List (Mutation Spec State)) (id : ResourceId) (request_id : RequestId) (req : Req)
      (res : Res) (payload answer : Payload) (o : OpResult) (w v u : W) (h : H)
      → validate_resource id ≡ none
      → validate_request request_id ≡ none
      → type.req_codec.marshal req ≡ ok payload
      → type.req_codec.unmarshal payload ≡ ok req
      → type.res_codec.marshal res ≡ ok answer
      → type.res_codec.unmarshal answer ≡ ok res
      → is_nil answer ≡ false
      → HasCache m.env
      → fn m.world (view (ctx m)) req ≡ (world', us, ok res)
      → server.update
          (workflow_id cl id)
          type.name
          (record { request_id = request_id; payload = payload })
          w
        ≡ (v, ok h)
      → lookup request_id
          (finish_command patches d
            (command_impl type fn)
            (record { request_id = request_id; name = type.name; payload = payload })
            m).env.completed
        ≡ some o
      → server.get h v ≡ (u, update_result o)
      → (exec_with_request_id server cl no_state type no_result id request_id req w ≡ (u, ok res))
        × ((finish_command patches d
              (command_impl type fn)
              (record { request_id = request_id; name = type.name; payload = payload })
              m).world
            ≡ world')
  unfolding exec_with_request_id update_result ◌==◌
  exec_reaches_handler patches d fn m world' us id request_id req res payload answer o w v u h valid
        named encoded decoded answered understood something cache ran sent found got =
      (
        rw (exec_with_request_id, valid, named, encoded)
            (rw
              (sent_once server.pause
                (send_update server cl no_state type no_result id request_id payload) w u answer
                called)
              (ap (λ r. (u, r)) (decoded_answer res answer something understood))),
        world-served patches d fn request_id m world' us req res payload answer decoded ran
            answered,
      )
    where
      called :
          send_update server cl no_state type no_result id request_id payload w ≡ (u, ok answer)
      called =
          unfold send_update in
          ap (await_update server) sent
          ∙ (unfold await_update in got)
          ∙ ap (λ q. (u, update_result q))
              (remembers_answer patches d fn request_id m world' us req res payload answer decoded
                ran answered o cache found)

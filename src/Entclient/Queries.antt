-- ===== src/Entclient/Queries.antt =====
-- pkg/entclient/client.go, `Read`, against the query handlers of pkg/entdefine/loop.go.
use temporal_entity.Base.{
  Option, sym, ◌≡◌, refl, ◌∙◌, ap, none, some, is_nil, false, Result, ok, lookup, insert,
  lookup-insert, ==_refl, has,
}
use temporal_entity.Entity.Id.{ResourceId, validate_resource}
use temporal_entity.Entity.State.{Snapshot}
use temporal_entity.Entity.Command.{Payload, CommandType}
use temporal_entity.Wire.{snapshot}
use temporal_entity.Entdefine.Typed.{exec_query}
use temporal_entity.Entdefine.Definition.{Definition, QueryImpl, is_reserved_query, handle_query}
use temporal_entity.Entdefine.Loop.{Machine, answer_query}
use temporal_entity.Entclient.Server.{Server, Client, workflow_id}
use temporal_entity.Entclient.Calls.{decoded_answer}
use temporal_entity.Entclient.Typed.{read, decode_raw}

module _ {Spec State Req Res : Type 0} (type : CommandType Spec State Req Res)
    (fn : Snapshot Spec State → Req → Result Res) where
  abbrev query_impl : QueryImpl Spec State
  query_impl = record {
    info = record { name = type.name; req_type = type.req_type; res_type = type.res_type };
    exec = exec_query type fn;
  }

  -- A query that `HandleQuery` took is answered by its closure.
  answer_query-handle_query :
      {V : Type 0} (d : Definition V Spec State) (payload : Payload) (m : Machine V Spec State)
      → is_reserved_query type.name ≡ false
      → has type.name d.queries ≡ false
      → answer_query (handle_query type fn d) type.name payload m
        ≡ some (exec_query type fn (snapshot m.env) payload)
  unfolding answer_query handle_query
  answer_query-handle_query d payload m free new =
      let found : lookup type.name (insert type.name query_impl d.queries) ≡ some query_impl =
        lookup-insert type.name type.name query_impl d.queries ∙ (rw (==_refl type.name) refl) in
      rw (free, handle_query)
        (rw (new, handle_query)
          (ap
            (λ (o : Option (QueryImpl Spec State)). elim o [
              | none ↦ none
              | some q ↦ some (q.exec (snapshot m.env) payload)
            ])
            found))

  exec_query-ok :
      (s : Snapshot Spec State) (req : Req) (res : Res) (payload answer : Payload)
      → type.req_codec.unmarshal payload ≡ ok req
      → fn s req ≡ ok res
      → type.res_codec.marshal res ≡ ok answer
      → exec_query type fn s payload ≡ ok answer
  unfolding exec_query
  exec_query-ok s req res payload answer decoded ran answered =
      rw (decoded, exec_query) (rw ran (rw answered refl))

-- A query reaches its handler on a snapshot of the entity, and the handler's result comes back: if
-- `HandleQuery` registered the handler under a name that is new and not reserved, the resource id is
-- valid, the codecs give back what they encoded, the result is not encoded as nothing, and the server
-- answers the query with what the entity answers, then `Read` returns what the handler returns on the
-- snapshot for the request itself.
pub read_reaches_query :
    {V W H R Spec State Req Res : Type 0} (server : Server W H R Spec State)
    (cl : Client W Spec State) (no_state : State) (type : CommandType Spec State Req Res)
    (no_result : Res) (fn : Snapshot Spec State → Req → Result Res) (d : Definition V Spec State)
    (m : Machine V Spec State) (id : ResourceId) (req : Req) (res : Res) (payload answer : Payload)
    (w u : W) (r : Result Payload)
    → is_reserved_query type.name ≡ false
    → has type.name d.queries ≡ false
    → validate_resource id ≡ none
    → type.req_codec.marshal req ≡ ok payload
    → type.req_codec.unmarshal payload ≡ ok req
    → type.res_codec.marshal res ≡ ok answer
    → type.res_codec.unmarshal answer ≡ ok res
    → is_nil answer ≡ false
    → fn (snapshot m.env) req ≡ ok res
    → answer_query (handle_query type fn d) type.name payload m ≡ some r
    → server.query (workflow_id cl id) type.name (some payload) w ≡ (u, r)
    → read server cl no_state type no_result id req w ≡ (u, ok res)
unfolding read decode_raw
read_reaches_query {W = W} server cl no_state type no_result fn d m id req res payload answer w u r
      free new valid encoded decoded answered understood something ran handled sent =
    let given : r ≡ ok answer = cc (
      sym handled
      ∙ answer_query-handle_query type fn d payload m free new
      ∙ ap some
          (exec_query-ok type fn (snapshot m.env) req res payload answer decoded ran answered)) in
    rw (read, valid, encoded)
      (ap (λ (x : W × Result Payload). (x.0, decode_raw server cl no_state type no_result x.1))
          (sent ∙ ap (λ x. (u, x)) given)
        ∙ ap (λ x. (u, x))
            (decoded_answer server cl no_state type no_result res answer something understood))

-- ===== src/Tests/Clients.antt =====
-- A client of the counter kind on a server that answers every update alike.
use temporal_entity.Base.{
  zero, suc, ◌≡◌, ◌↔◌, refl, ℕ, ◌+◌, none, some, [], codes, Result, ok, err, Error,
}
use temporal_entity.Entity.Id.{validate_resource, validate_request, parse_resource_id}
use temporal_entity.Entity.Id.Shape.{IsResourceId, parse_resource_id-IsResourceId}
use temporal_entity.Entity.Command.{Payload}
use temporal_entity.Entdefine.Context.{mutate_all}
use temporal_entity.Entdefine.Typed.{exec_command}
use temporal_entity.Entclient.Server.{Server, Client}
use temporal_entity.Entclient.Retry.{with_can_retry, is_can_race}
use temporal_entity.Entclient.Retry.Bounded.{
  watch, watched_pause, watched_call, with_can_retry-IsBounded, with_can_retry-exhausted,
}
use temporal_entity.Base.{List, ◌++◌, ◌≤◌}
use temporal_entity.Entdefine.Definition.{command_impl}
use temporal_entity.Entdefine.Loop.{finish_command}
use temporal_entity.Entdefine.Typed.{encode_result}
use temporal_entity.Entclient.Typed.{exec_with_request_id, read}
use temporal_entity.Entclient.Calls.{exec_reaches_handler}
use temporal_entity.Entity.State.{Snapshot}
use temporal_entity.Entity.Command.{CommandType}
use temporal_entity.Base.{Str, ◌∷◌, false, ◌==◌, lookup, insert}
use temporal_entity.Entdefine.Typed.{exec_query}
use temporal_entity.Entdefine.Definition.{Definition, is_reserved_query, handle_query}
use temporal_entity.Entdefine.Loop.{answer_query, begin_run}
use temporal_entity.Entclient.Server.{workflow_id}
use temporal_entity.Entclient.Typed.{decode_raw}
use temporal_entity.Entclient.Operator.{exec_raw}
use temporal_entity.Entclient.Operating.{exec_with_request_id-exec_raw}
use temporal_entity.Entclient.Queries.{read_reaches_query}
use temporal_entity.Base.{Dict, contains}
use temporal_entity.Wire.{op_result, record_completed, merge_labels}
use temporal_entity.Wire.Labels.{patched}
use temporal_entity.Entdefine.Loop.{
  Machine, run_set_labels, patch_labels, mirror_labels, update_result,
}
use temporal_entity.Entclient.Operator.{set_labels_raw}
use temporal_entity.Entclient.Labels.{patch_command, set_labels_reaches_entity}
use temporal_entity.Tests.Wires.{blank-HasCache}
use temporal_entity.Tests.Fixtures.{counter, patches, blank}
use temporal_entity.Tests.Definitions.{set, run_set, bytes}

-- The world counts the calls.
abbrev counting : {Spec State : Type 0} → Server ℕ ℕ ℕ Spec State
counting = record {
  update = λ id name args w. (w + 1, ok w);
  update_with_start = λ o k env name args w. (w + 1, ok w);
  get = λ h w. (w + 1, ok (codes "ab"));
  execute = λ o k env w. (w + 1, ok w);
  query = λ id name p w. (w + 1, ok (codes "ab"));
  signal = λ id name w. (w + 1, none);
  new_uuid = λ w. (w + 1, codes "u");
  pause = λ n w. (w + n, none);
}

abbrev server : Server ℕ ℕ ℕ ℕ ℕ
server = counting

abbrev cl : Client ℕ ℕ ℕ
cl = record { d = counter; task_queue = codes "q" }

abbrev race : Error
race = record { message = codes "lost"; app_type = some (codes "AcceptedUpdateCompletedWorkflow") }

-- A call that races once: the first is answered by a race, the second by a result.
abbrev racing : ℕ → ℕ × Result Payload
racing zero = (1, err race)
racing (suc n) = (suc n, ok (codes "ab"))

racing_ends : with_can_retry server.pause racing 0 ≡ (201, ok (codes "ab"))
unfolding with_can_retry
racing_ends = refl

with_can_retry-IsBounded_example :
    let (s, r) = with_can_retry (watched_pause server.pause) (watched_call racing) (watch 0) in
    (1 ≤ s.calls)
    × (s.calls ≤ 5)
    × (rest : List ℕ) × (s.pauses ++ rest ≡ 200 ∷ 400 ∷ 600 ∷ 800 ∷ 1000 ∷ [])
    × ((s.world, r) ≡ with_can_retry server.pause racing 0)
with_can_retry-IsBounded_example = with_can_retry-IsBounded server.pause racing 0

-- A call that always races.
abbrev lost : ℕ → ℕ × Result Payload
lost n = (n, err race)

with_can_retry-exhausted_example :
    let (s, r) = with_can_retry (watched_pause server.pause) (watched_call lost) (watch 0) in
    (s.calls ≡ 5) × (s.pauses ≡ 200 ∷ 400 ∷ 600 ∷ 800 ∷ 1000 ∷ []) × (r ≡ err race)
with_can_retry-exhausted_example =
    with_can_retry-exhausted server.pause lost race 0 (λ v. refl) (unfold is_can_race in refl)
      (λ k v. refl)

-- The entity runs `set` and remembers the answer.
abbrev ready : Machine ℕ ℕ ℕ
ready = begin_run patches counter 3 blank none

exec_reaches_handler_example :
    (exec_with_request_id server cl 0 set [] (codes "a") (codes "r") (codes "ab") 7
      ≡ (9, ok (codes "ab")))
    × ((finish_command patches counter
          (command_impl set run_set)
          (record { request_id = codes "r"; name = codes "set"; payload = codes "ab" })
          ready).world
        ≡ 4)
unfolding validate_resource validate_request begin_run finish_command command_impl exec_command
    encode_result mirror_labels mutate_all record_completed insert lookup contains update_result
    ◌==◌
exec_reaches_handler_example =
    exec_reaches_handler server cl 0 set [] patches counter run_set ready 4 _ (codes "a")
      (codes "r") (codes "ab") (codes "ab") (codes "ab") (codes "ab") (op_result (codes "ab") none)
      7 8 9 7 refl refl refl refl refl refl refl blank-HasCache refl refl refl refl

parse_resource_id-IsResourceId_example :
    (parse_resource_id (codes "ns/a") ≡ ok (codes "ns/a"))
    ↔ ((codes "ns/a" ≡ codes "ns/a") × IsResourceId (codes "ns/a"))
parse_resource_id-IsResourceId_example =
    parse_resource_id-IsResourceId (codes "ns/a") (codes "ns/a")

-- A kind whose spec and state are raw, with the command `set`.
abbrev raw_set : CommandType Str Str Str Str
raw_set = record {
  name = codes "set";
  req_type = codes "Set";
  res_type = codes "SetRes";
  req_codec = bytes;
  res_codec = bytes;
  self_validator = none;
  validator = none;
}

abbrev raw_kind : Definition ℕ Str Str
raw_kind = record {
  kind = codes "raw";
  init = none;
  finalize = none;
  reconcile = none;
  reconcile_every = 0;
  commands = [];
  queries = [];
  use_search_attrs = false;
  force_can_every = 0;
  errs = [];
}

abbrev raw_cl : Client ℕ Str Str
raw_cl = record { d = raw_kind; task_queue = codes "q" }

abbrev run_name : ℕ → Str
run_name n = codes "run"

exec_with_request_id-exec_raw_example :
    exec_with_request_id counting raw_cl [] raw_set [] (codes "a") (codes "r") (codes "xy") 7 ≡ (
      let (v, r) =
        with_can_retry server.pause
          (λ u.
            exec_raw counting run_name patches
              (workflow_id raw_cl (codes "a"))
              (codes "set")
              (codes "xy")
              (codes "r")
              u)
          7 in
      (v, decode_raw counting raw_cl [] raw_set [] r))
unfolding validate_resource validate_request ◌==◌
exec_with_request_id-exec_raw_example =
    exec_with_request_id-exec_raw counting run_name patches raw_cl raw_set [] (codes "a")
      (codes "r") (codes "xy") (codes "xy") 7 refl refl refl refl

-- A query that gives its request back.
abbrev echo : Snapshot ℕ ℕ → Str → Result Str
echo s q = ok q

abbrev no_queries : Definition ℕ ℕ ℕ
no_queries = record counter { queries = [] }

read_reaches_query_example :
    read server cl 0 set [] (codes "a") (codes "ab") 7 ≡ (8, ok (codes "ab"))
unfolding validate_resource is_reserved_query answer_query handle_query exec_query lookup insert
    ◌==◌
read_reaches_query_example =
    read_reaches_query server cl 0 set [] echo no_queries (begin_run patches counter 0 blank none)
      (codes "a") (codes "ab") (codes "ab") (codes "ab") (codes "ab") 7 8 (ok (codes "ab")) refl
      refl refl refl refl refl refl refl refl refl refl

-- An entity sets the label k and has nothing to answer.
abbrev silent : Server ℕ ℕ ℕ Str Str
silent = record counting { get = λ h w. (w + 1, ok []) }

abbrev one_label : Dict Str
one_label = (codes "k", codes "v") ∷ []

abbrev fresh : Machine ℕ ℕ ℕ
fresh = begin_run patches counter 0 blank none

set_labels_reaches_entity_example :
    (set_labels_raw silent run_name patches (codes "raw/a") one_label 7 ≡ (10, none))
    × ((k : Str)
        → lookup k
            (run_set_labels patches counter
              (patch_command (codes "u") (codes "kv"))
              fresh).env.labels
          ≡ patched (lookup k one_label) (lookup k fresh.env.labels))
unfolding begin_run run_set_labels patch_labels mirror_labels record_completed merge_labels insert
    lookup contains update_result ◌==◌
set_labels_reaches_entity_example =
    set_labels_reaches_entity silent run_name patches counter (codes "raw/a") one_label (codes "kv")
      fresh (op_result [] none) (codes "u") 8 7 8 9 10 refl refl refl (refl, tt) blank-HasCache refl
      refl refl refl

-- ===== src/Entdefine/Definition.antt =====
-- pkg/entdefine/definition.go: a kind's definition and the registration of its commands and
-- queries. The proofs are in the modules below.
pub mod Registry
use Prim.Native.String.{String}
use temporal_entity.Base.{
  ℕ, zero, ◌≡◌, Bool, true, false, ◌||◌, Option, none, some, List, [], ◌∷◌, ◌++◌, map, Str, codes,
  ◌==◌, Dict, lookup, insert, has, if◌then◌else◌, Error, Result, ok, err, Check, new_error, wrap,
  wrap_err, and_then, quote, is_nil,
}
use temporal_entity.Entity.Id.{KindName, validate_kind}
use temporal_entity.Entity.State.{
  Snapshot, delete_signal_name, describe_query_name, set_labels_command_name,
}
use temporal_entity.Entity.Command.{
  CommandName, QueryName, Payload, Codec, CommandType, CommandInfo,
}
use temporal_entity.Entdefine.Context.{View, Mutation, Handler}
use temporal_entity.Entdefine.Typed.{exec_command, base_validate, exec_query}

pub record CommandImpl (W Spec State : Type 0) : Type 0 where
  pub info : CommandInfo
  pub exec : Handler W Spec State Payload Payload
  pub validate : Option (Snapshot Spec State → Payload → Check)

pub record QueryImpl (Spec State : Type 0) : Type 0 where
  pub info : CommandInfo
  pub exec : Snapshot Spec State → Payload → Result Payload

-- A duration or a count that is not positive switches its feature off, so both are naturals. The
-- flag that `init` takes says that its context is cancelled.
pub record Definition (W Spec State : Type 0) : Type 0 where
  pub kind : KindName
  pub init : Option (W → Bool → Spec → W × State × Check)
  pub finalize : Option (W → State → W × State × Check)
  pub reconcile : Option (W → View Spec State → W × List (Mutation Spec State) × Check)
  pub reconcile_every : ℕ
  pub commands : Dict (CommandImpl W Spec State)
  pub queries : Dict (QueryImpl Spec State)
  pub use_search_attrs : Bool
  pub force_can_every : ℕ
  pub errs : List Error

-- `errors.Join` on errors that are not nil
abbrev pub join_messages : List Error → Str
join_messages [] = []
join_messages (e ∷ []) = e.message
join_messages (e ∷ f ∷ es) = e.message ++ 10 ∷ join_messages (f ∷ es)

abbrev pub first_app_type : List Error → Option Str
first_app_type [] = none
first_app_type (e ∷ es) = elim e.app_type [ none ↦ first_app_type es | some t ↦ some t ]

abbrev pub join_errors : List Error → Error
join_errors es = record { message = join_messages es; app_type = first_app_type es }

-- A registration names the command whose implementation it points to.
pub record CommandRegistration : Type 0 where
  pub impl : CommandName
  pub dead : Bool

-- Go's `name == "" || name == ...`
unfoldable pub is_reserved_command : CommandName → Bool
unfolding ◌==◌
is_reserved_command name =
    name == []
    || name == delete_signal_name
    || name == describe_query_name
    || name == set_labels_command_name

unfoldable pub is_reserved_query : QueryName → Bool
unfolding ◌==◌
is_reserved_query name = name == [] || name == describe_query_name

-- `Option`
abbrev pub Setting : Type 0 → Type 0 → Type 0 → Type 0
Setting W Spec State = Definition W Spec State → Definition W Spec State

abbrev with_error : Check → Str → List Error → List Error
with_error none prefix errs = errs
with_error (some e) prefix errs = errs ++ wrap prefix e ∷ []

module _ {W Spec State : Type 0} where
  abbrev pub with_init : (W → Bool → Spec → W × State × Check) → Setting W Spec State
  with_init fn d = record d { init = some fn }

  abbrev pub with_finalize : (W → State → W × State × Check) → Setting W Spec State
  with_finalize fn d = record d { finalize = some fn }

  abbrev pub with_reconcile_every :
      ℕ → (W → View Spec State → W × List (Mutation Spec State) × Check) → Setting W Spec State
  with_reconcile_every every fn d = record d { reconcile_every = every; reconcile = some fn }

  abbrev pub with_search_attributes : Bool → Setting W Spec State
  with_search_attributes on d = record d { use_search_attrs = on }

  abbrev pub with_force_can_every : ℕ → Setting W Spec State
  with_force_can_every n d = record d { force_can_every = n }

  apply_options : List (Setting W Spec State) → Setting W Spec State
  apply_options [] d = d
  apply_options (o ∷ opts) d = apply_options opts (o d)

  -- `New`
  unfoldable pub new_definition : KindName → List (Setting W Spec State) → Definition W Spec State
  unfolding apply_options validate_kind
  new_definition kind opts = apply_options opts (record {
    kind = kind;
    init = none;
    finalize = none;
    reconcile = none;
    reconcile_every = 0;
    commands = [];
    queries = [];
    use_search_attrs = false;
    force_can_every = 0;
    errs = with_error (validate_kind kind) (codes "entity kind") [];
  })

  -- What `Handle` and `HandleQuery` report: the kind, the fault, the name and the type.
  registration_error : Definition W Spec State → String → Str → Str → Error
  registration_error d fault name type_name = new_error (
      codes "entity "
      ++ (quote d.kind
          ++ (codes ": "
              ++ (codes fault
                  ++ (codes " " ++ (quote name ++ (codes " (" ++ (type_name ++ codes ")"))))))))

  refused : Definition W Spec State → Error → Definition W Spec State
  refused d e = record d { errs = d.errs ++ e ∷ [] }

  module _ {Req Res : Type 0} (type : CommandType Spec State Req Res) where
    unfoldable pub command_impl : Handler W Spec State Req Res → CommandImpl W Spec State
    unfolding exec_command base_validate
    command_impl fn = record {
      info = record { name = type.name; req_type = type.req_type; res_type = type.res_type };
      exec = exec_command type fn;
      validate = some (base_validate type);
    }

    -- `Handle`
    unfoldable pub handle :
        Definition W Spec State
        → Handler W Spec State Req Res
        → Definition W Spec State × CommandRegistration
    unfolding is_reserved_command registration_error refused command_impl
    handle d fn =
        if is_reserved_command type.name
        then (
          refused d (registration_error d "reserved or empty command name" type.name type.req_type),
          record { impl = type.name; dead = true },
        )
        else if has type.name d.commands
        then (
          refused d (registration_error d "duplicate command" type.name type.req_type),
          record { impl = type.name; dead = true },
        )
        else (
          record d { commands = insert type.name (command_impl fn) d.commands },
          record { impl = type.name; dead = false },
        )

    -- The kind-level check of `CommandRegistration.Validate`, chained behind the one before it, which
    -- every registered command has.
    unfoldable pub chained :
        CommandImpl W Spec State
        → (Snapshot Spec State → Req → Check)
        → Snapshot Spec State
        → Payload
        → Check
    chained impl fn s payload =
        and_then (elim impl.validate [ none ↦ none | some before ↦ before s payload ])
          (elim (type.req_codec.unmarshal payload) [
            | err e ↦ some (wrap (codes "decode " ++ (impl.info.name ++ codes " request")) e)
            | ok req ↦ fn s req
          ])

    -- `CommandRegistration.Validate`
    unfoldable pub validate :
        CommandRegistration → (Snapshot Spec State → Req → Check) → Setting W Spec State
    unfolding chained
    validate r fn d = if r.dead then d else elim (lookup r.impl d.commands) [
      | none ↦ d
      | some impl ↦ record d {
        commands = insert r.impl (record impl { validate = some (chained impl fn) }) d.commands;
      }
    ]

    -- `HandleQuery`
    unfoldable pub handle_query : (Snapshot Spec State → Req → Result Res) → Setting W Spec State
    unfolding is_reserved_query registration_error refused exec_query
    handle_query fn d =
        if is_reserved_query type.name
        then refused d (registration_error d "reserved or empty query name" type.name type.req_type)
        else if has type.name d.queries
        then refused d (registration_error d "duplicate query" type.name type.req_type)
        else record d {
          queries =
              insert type.name
                (record {
                  info = record {
                    name = type.name;
                    req_type = type.req_type;
                    res_type = type.res_type;
                  };
                  exec = exec_query type fn;
                })
                d.queries;
        }

  -- `Register`, on the names of the workflows that the worker knows.
  unfoldable pub register : Definition W Spec State → List Str → Result (List Str)
  register d registry =
      if is_nil d.errs then ok (registry ++ d.kind ∷ []) else err (join_errors d.errs)

  -- `Commands` and `Queries`
  unfoldable pub command_infos : Definition W Spec State → List CommandInfo
  command_infos d = map (λ (e : CommandName × CommandImpl W Spec State). e.1.info) d.commands

  unfoldable pub query_infos : Definition W Spec State → List CommandInfo
  query_infos d = map (λ (e : QueryName × QueryImpl Spec State). e.1.info) d.queries

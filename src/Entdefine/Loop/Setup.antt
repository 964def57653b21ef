-- ===== src/Entdefine/Loop/Setup.antt =====
-- The entry of `workflowFn`: its input, and the handlers that it registers with Temporal before it runs.
-- The proofs are in the module below.
pub mod Registered
use temporal_entity.Base.{
  Option, none, some, List, [], ◌∷◌, ◌++◌, Str, codes, quote, keys, Dict, Result, ok, err, Check,
  new_error, wrap, and_then,
}
use temporal_entity.Entity.State.{describe_query_name, set_labels_command_name}
use temporal_entity.Entity.Command.{Codec}
use temporal_entity.Wire.{Envelope}
use temporal_entity.Entdefine.Attributes.{Attributes}
use temporal_entity.Entdefine.Definition.{Definition}
use temporal_entity.Entdefine.Loop.Run.{Machine}
use temporal_entity.Entdefine.Loop.Main.{begin_run}

-- `if err != nil { return fmt.Errorf(prefix+": %w", err) }`
abbrev wrap_check : Str → Check → Check
wrap_check prefix none = none
wrap_check prefix (some e) = some (wrap prefix e)

-- One registration after another, until one fails; `prefix` is what the error says before the name.
unfoldable pub register_each : Str → (Str → Check) → List Str → Check
register_each prefix register [] = none
register_each prefix register (name ∷ names) =
    and_then (wrap_check (prefix ++ quote name) (register name))
      (register_each prefix register names)

-- `query` and `update` are the errors of `SetQueryHandler` and `SetUpdateHandlerWithOptions` for a
-- name.
module _ {W Spec State : Type 0} (query update : Str → Check) (patches : Codec (Dict Str))
    (d : Definition W Spec State) where
  unfoldable pub register_queries : Check
  unfolding register_each
  register_queries =
      and_then (wrap_check (codes "register describe query") (query describe_query_name))
        (register_each (codes "register query ") query (keys d.queries))

  unfoldable pub register_updates : Check
  unfolding register_each
  register_updates =
      and_then (wrap_check (codes "register set-labels update") (update set_labels_command_name))
        (register_each (codes "register update ") update (keys d.commands))

  -- `workflowFn` on its input, which may be nil, up to its first blocking point.
  unfoldable pub enter :
      W → Option (Envelope Spec State) → Option Attributes → Result (Machine W Spec State)
  unfolding begin_run register_queries register_updates
  enter w none published = err (new_error (codes "entity: nil envelope input"))
  enter w (some env) published = elim (and_then register_queries register_updates) [
    | some e ↦ err e
    | none ↦ ok (begin_run patches d w env published)
  ]

-- ===== src/Tests/Definitions.antt =====
-- `Handle` and `Validate` at a concrete command.
use temporal_entity.Base.{
  ◌≡◌, refl, ℕ, ◌+◌, none, some, [], ◌∷◌, codes, lookup, Str, ok, Check, new_error, if◌then◌else◌,
  length, is_nil, and_then,
}
use temporal_entity.Entity.State.{Snapshot, delete_signal_name}
use temporal_entity.Entity.Command.{Codec, CommandType}
use temporal_entity.Wire.{snapshot}
use temporal_entity.Entdefine.Context.{Mutation, Handler}
use temporal_entity.Entdefine.Typed.{validate_self, validate_with}
use temporal_entity.Entdefine.Definition.{Definition, CommandImpl, handle, validate}
use temporal_entity.Entdefine.Definition.Registry.{verdict, handle_refused, validators_in_order}
use temporal_entity.Tests.Fixtures.{blank, counter}

-- The payload is the request, which says no to nothing.
abbrev pub bytes : Codec Str
bytes = record { marshal = λ s. ok s; unmarshal = λ s. ok s }

abbrev pub set : CommandType ℕ ℕ Str Str
set = record {
  name = codes "set";
  req_type = codes "Set";
  res_type = codes "SetRes";
  req_codec = bytes;
  res_codec = bytes;
  self_validator = some (λ s. if is_nil s then some (new_error (codes "empty")) else none);
  validator = none;
}

-- A command with the name of the delete signal.
abbrev reserved : CommandType ℕ ℕ Str Str
reserved = record set { name = delete_signal_name }

abbrev pub run_set : Handler ℕ ℕ ℕ Str Str
run_set w v s = (w + 1, Mutation.put_state (length s) ∷ [], ok s)

abbrev short : Snapshot ℕ ℕ → Str → Check
short s req = if is_nil req then none else some (new_error (codes "too long"))

abbrev plain : Definition ℕ ℕ ℕ
plain = record counter { commands = [] }

handle_refused_example :
    ((handle reserved counter run_set).0.commands ≡ counter.commands)
    × (length (handle reserved counter run_set).0.errs ≡ 1)
    × (validate reserved
          (handle reserved counter run_set).1
          short
          (handle reserved counter run_set).0
        ≡ (handle reserved counter run_set).0)
unfolding handle
handle_refused_example = handle_refused reserved counter run_set short refl

validators_in_order_example :
    (impl : CommandImpl ℕ ℕ ℕ) × (lookup
        (codes "set")
        (validate set (handle set counter run_set).1 short (handle set counter run_set).0).commands
      ≡ some impl)
    × (verdict impl (snapshot blank) (codes "ab")
        ≡ and_then (validate_self set (codes "ab")) (
            and_then
              (validate_with set (snapshot blank) (codes "ab"))
              (short (snapshot blank) (codes "ab"))))
unfolding handle lookup
validators_in_order_example =
    validators_in_order set counter run_set short (snapshot blank) (codes "ab") refl

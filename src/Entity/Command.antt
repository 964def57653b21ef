-- ===== src/Entity/Command.antt =====
-- pkg/entity/command.go: the contract of a command or query type, and its description. A Go type
-- that implements the contract is a value of `CommandType`: its name, its printed type names, the
-- JSON codec of the type and of its result, and its two optional validation methods.
use temporal_entity.Base.{Option, Str, Check, Result}
use temporal_entity.Entity.State.{Snapshot}

abbrev pub CommandName : Type 0
CommandName = Str

abbrev pub QueryName : Type 0
QueryName = Str

abbrev pub Payload : Type 0
Payload = Str

-- `json.Marshal` and `json.Unmarshal` at one Go type.
pub record Codec (A : Type 0) : Type 0 where
  pub marshal : A → Result Payload
  pub unmarshal : Payload → Result A

pub record CommandType (Spec State Req Res : Type 0) : Type 0 where
  pub name : CommandName
  pub req_type : Str
  pub res_type : Str
  pub req_codec : Codec Req
  pub res_codec : Codec Res
  -- `SelfValidator` and `Validator`, where the type implements them
  pub self_validator : Option (Req → Check)
  pub validator : Option (Snapshot Spec State → Req → Check)

pub record CommandInfo : Type 0 where
  pub name : CommandName
  pub req_type : Str
  pub res_type : Str

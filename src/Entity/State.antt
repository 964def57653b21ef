-- ===== src/Entity/State.antt =====
-- pkg/entity/state.go: phases, the read-only snapshot, the answer of the describe query and the
-- wire names of the protocol.
use temporal_entity.Base.{ℕ, Bool, Str, codes, Dict}

pub data Phase : Type 0 where
  unset creating ready deleting deleted delete_failed create_failed : Phase

pub record Snapshot (Spec State : Type 0) : Type 0 where
  pub phase : Phase
  pub spec : Spec
  pub state : State
  pub labels : Dict Str
  pub pending_commands : ℕ
  pub marked_for_deletion : Bool

pub record DescribeOut (Spec State : Type 0) : Type 0 where
  pub phase : Phase
  pub spec : Spec
  pub state : State
  pub labels : Dict Str
  pub pending_commands : ℕ
  pub marked_for_deletion : Bool
  pub run_id : Str

abbrev pub delete_signal_name : Str
delete_signal_name = codes "entity-delete"

abbrev pub describe_query_name : Str
describe_query_name = codes "describe"

abbrev pub set_labels_command_name : Str
set_labels_command_name = codes "entity-set-labels"

abbrev pub note_signal_name : Str
note_signal_name = codes "entity-note"

-- ===== src/Entclient/Server.antt =====
-- What pkg/entclient/client.go uses of Temporal's client, and the values that it gives to it. `W` is
-- the world, `H` a handle on an update, `R` a handle on a run.
use temporal_entity.Base.{
  ℕ, Option, Str, Dict, Result, Check, codes, ◌++◌, [], ◌∷◌, List, put_all, false,
}
use temporal_entity.Entity.Id.{KindName, ResourceId}
use temporal_entity.Entity.State.{Phase}
use temporal_entity.Entity.Command.{CommandName, QueryName, Payload}
use temporal_entity.Wire.{Envelope, UpdateArgs}
use temporal_entity.Entdefine.Definition.{Definition}

pub data ConflictPolicy : Type 0 where
  use_existing : ConflictPolicy

-- `client.StartWorkflowOptions`
pub record StartOptions : Type 0 where
  pub id : Str
  pub task_queue : Str
  pub conflict_policy : ConflictPolicy

pub record Server (W H R Spec State : Type 0) : Type 0 where
  -- `UpdateWorkflow` and `UpdateWithStartWorkflow`, and `Get` of the handle that they return
  pub update : Str → CommandName → UpdateArgs → W → W × Result H
  pub update_with_start :
      StartOptions → KindName → Envelope Spec State → CommandName → UpdateArgs → W → W × Result H
  pub get : H → W → W × Result Payload
  -- `ExecuteWorkflow`, `QueryWorkflow` with or without an argument, `SignalWorkflow`
  pub execute : StartOptions → KindName → Envelope Spec State → W → W × Result R
  pub query : Str → QueryName → Option Payload → W → W × Result Payload
  pub signal : Str → Str → W → W × Check
  -- `uuid.NewString`
  pub new_uuid : W → W × Str
  -- `select` on the context and a timer of some milliseconds: the error of a context that is done
  pub pause : ℕ → W → W × Check

-- `Client`
pub record Client (W Spec State : Type 0) : Type 0 where
  pub d : Definition W Spec State
  pub task_queue : Str

module _ {W Spec State : Type 0} where
  -- `WorkflowID`
  unfoldable pub workflow_id : Client W Spec State → ResourceId → Str
  workflow_id cl id = cl.d.kind ++ (codes "/" ++ id)

  -- `startOptions`
  unfoldable pub start_options : Client W Spec State → ResourceId → StartOptions
  unfolding workflow_id
  start_options cl id = record {
    id = workflow_id cl id;
    task_queue = cl.task_queue;
    conflict_policy = use_existing;
  }

-- `startConfig`, which holds the labels, and `StartOption`
abbrev pub StartConfig : Type 0
StartConfig = Dict Str

abbrev pub StartOption : Type 0
StartOption = StartConfig → StartConfig

-- `WithLabels` and `WithLabel`
unfoldable pub with_labels : Dict Str → StartOption
with_labels labels c = put_all c labels

unfoldable pub with_label : Str → Str → StartOption
unfolding with_labels
with_label key value = with_labels ((key, value) ∷ [])

apply_to : List StartOption → StartConfig → StartConfig
apply_to [] c = c
apply_to (o ∷ opts) c = apply_to opts (o c)

-- `applyStartOptions`
unfoldable pub apply_start_options : List StartOption → StartConfig
unfolding apply_to
apply_start_options opts = apply_to opts []

-- `&wire.Envelope{Spec: spec, Labels: labels}`; the state is Go's zero value.
abbrev pub new_envelope : {Spec State : Type 0} → State → Spec → Dict Str → Envelope Spec State
new_envelope zero spec labels = record {
  initialized = false;
  phase = Phase.unset;
  spec = spec;
  state = zero;
  labels = labels;
  marked_for_deletion = false;
  pending = [];
  completed = [];
  completed_order = [];
}

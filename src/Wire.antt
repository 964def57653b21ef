-- ===== src/Wire.antt =====
-- internal/wire/wire.go: the envelope that carries an entity's state and its operations. The proofs
-- are in the modules below.
pub mod Cache
pub mod Labels
pub mod Recent
use temporal_entity.Base.{
  ℕ, suc, ◌+◌, ◌≡◌, Bool, true, false, not, Option, none, some, List, [], ◌∷◌, ◌++◌, Str, ◌==◌,
  Dict, lookup, insert, erase, has, put_all, length, is_nil, ltb, if◌then◌else◌, Error,
}
use temporal_entity.Entity.Id.{RequestId}
use temporal_entity.Entity.State.{Phase, Snapshot}
use temporal_entity.Entity.Command.{CommandName, Payload}

-- `CompletedOpsCap`
abbrev pub completed_ops_cap : ℕ
completed_ops_cap = 100

pub record UpdateArgs : Type 0 where
  pub request_id : RequestId
  pub payload : Payload

pub record CommandEnvelope : Type 0 where
  pub request_id : RequestId
  pub name : CommandName
  pub payload : Payload

-- A nil result is the empty payload.
pub record OpResult : Type 0 where
  pub result : Payload
  pub err : Str

pub record Envelope (Spec State : Type 0) : Type 0 where
  pub initialized : Bool
  pub phase : Phase
  pub spec : Spec
  pub state : State
  pub labels : Dict Str
  pub marked_for_deletion : Bool
  pub pending : List CommandEnvelope
  pub completed : Dict OpResult
  pub completed_order : List RequestId

abbrev pub op_result : Payload → Option Error → OpResult
op_result res none = record { result = res; err = [] }
op_result res (some e) = record { result = res; err = e.message }

-- `for len(e.CompletedOrder) > CompletedOpsCap { ... }`
unfoldable pub evict : ℕ → List RequestId → Dict OpResult → List RequestId × Dict OpResult
evict cap [] completed = ([], completed)
evict cap (oldest ∷ order) completed =
    let rest = evict cap order (erase oldest completed) in
    if ltb cap (length (oldest ∷ order)) then rest else (oldest ∷ order, completed)

-- The cache after one outcome, with the bound as an argument.
record_in :
    ℕ → RequestId → OpResult → List RequestId → Dict OpResult → List RequestId × Dict OpResult
record_in cap id r order completed =
    evict cap (if has id completed then order else order ++ id ∷ []) (insert id r completed)

-- `copyLabels`
unfoldable pub copy_labels : Dict Str → Dict Str
unfolding put_all
copy_labels labels = if is_nil labels then [] else put_all [] labels

module _ {Spec State : Type 0} where
  -- `RecordCompleted`
  unfoldable pub record_completed :
      RequestId → Payload → Option Error → Envelope Spec State → Envelope Spec State
  unfolding record_in evict
  record_completed id res e env =
      let (order, completed) =
        record_in completed_ops_cap id (op_result res e) env.completed_order env.completed in
      record env { completed = completed; completed_order = order }

  -- `Snapshot`
  unfoldable pub snapshot : Envelope Spec State → Snapshot Spec State
  unfolding copy_labels
  snapshot env = record {
    phase = env.phase;
    spec = env.spec;
    state = env.state;
    labels = copy_labels env.labels;
    pending_commands = length env.pending;
    marked_for_deletion = env.marked_for_deletion;
  }

-- `labels[k]`, which is the empty string for a missing key
label_value : Str → Dict Str → Str
label_value k labels = elim (lookup k labels) [ none ↦ [] | some v ↦ v ]

-- One round of the loop of `MergeLabels`, on the labels and the flag.
unfoldable pub merge_label : Str → Str → Dict Str × Bool → Dict Str × Bool
unfolding label_value
merge_label k v (labels, changed) =
    if v == []
    then (if has k labels then (erase k labels, true) else (labels, changed))
    else if not (label_value k labels == v)
    then (insert k v labels, true)
    else (labels, changed)

-- `MergeLabels` on the labels alone: the patch is given in the order of the iteration.
unfoldable pub merge_into : Dict Str → Dict Str × Bool → Dict Str × Bool
unfolding merge_label
merge_into [] acc = acc
merge_into ((k, v) ∷ patch) acc = merge_into patch (merge_label k v acc)

module _ {Spec State : Type 0} where
  -- `MergeLabels`: the envelope after the patch, and whether anything changed
  unfoldable pub merge_labels : Dict Str → Envelope Spec State → Envelope Spec State × Bool
  unfolding merge_into
  merge_labels patch env =
      let (labels, changed) = merge_into patch (env.labels, false) in
      (record env { labels = labels }, changed)

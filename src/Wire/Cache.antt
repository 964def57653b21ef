-- ===== src/Wire/Cache.antt =====
-- `RecordCompleted` of internal/wire/wire.go: a well-formed cache, and the outcomes that it remembers.
-- The proofs are in the modules below.
pub mod Entries
pub mod Lookup
pub mod Refined
use native.Mathlib.Decide.{dec_lt}
use temporal_entity.Base.{
  ℕ, ◌<◌, suc, ◌-◌, ◌≤◌, ◌≡◌, refl, Bool, false, not, ◌&&◌, Option, none, some, List, [], ◌∷◌, ◌++◌,
  arith, Str, ◌==◌, ==_iff, ==_refl, contains, contains-append, IsDistinct, IsDistinct-snoc, Dict,
  lookup, insert, erase, has, lookup-insert, lookup-erase, length, length-append, drop, ltb,
  if◌then◌else◌, Error, Bool-cases, inl, inr, ap, sym,
}
use temporal_entity.Entity.Id.{RequestId}
use temporal_entity.Entity.Command.{Payload}
use temporal_entity.Wire.{
  OpResult, Envelope, op_result, evict, record_in, record_completed, completed_ops_cap,
}

-- The ids are distinct and are those of the map.
pub record IsIndexed (order : List RequestId) (completed : Dict OpResult) : Type 0 where
  pub distinct : IsDistinct order
  pub same : (k : Str) → has k completed ≡ contains k order

-- The ids are no more than the bound, too.
pub record IsCache (cap : ℕ) (order : List RequestId) (completed : Dict OpResult) : Type 0 where
  pub indexed : IsIndexed order completed
  pub bounded : length order ≤ cap

-- The outcomes in the order of their ids: what the cache says, and no more.
abbrev pub result_of : RequestId → Dict OpResult → OpResult
result_of k completed = elim (lookup k completed) [
  | none ↦ record { result = []; err = [] }
  | some r ↦ r
]

unfoldable pub entries : List RequestId → Dict OpResult → Dict OpResult
entries [] completed = []
entries (k ∷ order) completed = (k, result_of k completed) ∷ entries order completed

abbrev pub keep_newest {ℓ} : {A : Type ℓ} → ℕ → List A → List A
keep_newest cap xs = drop (length xs - cap) xs

-- The order after an id is touched.
abbrev pub touched : RequestId → List RequestId → List RequestId
touched id order = if contains id order then order else order ++ id ∷ []

-- Is `k` the oldest id of a full cache that does not know `id`?
abbrev pub is_evicted : ℕ → RequestId → RequestId → List RequestId → Bool
is_evicted bound id k [] = false
is_evicted bound id k (x ∷ order) =
    not (contains id (x ∷ order)) && not (ltb (length (x ∷ order)) bound) && x == k

module _ {Spec State : Type 0} where
  -- The cache of an envelope is indexed by its order and bounded by `completed_ops_cap`.
  abbrev pub HasCache : Envelope Spec State → Type 0
  HasCache env = IsCache completed_ops_cap env.completed_order env.completed

  -- The outcomes that an envelope remembers, oldest first.
  abbrev pub remembered : Envelope Spec State → Dict OpResult
  remembered env = entries env.completed_order env.completed

-- ===== src/Wire/Cache/Entries.antt =====
-- internal/wire/wire.go, `RecordCompleted`: the dedup cache as a list of outcomes, oldest first.
use native.Mathlib.Decide.{dec_lt}
use temporal_entity.Base.{
  none, some, lookup, ℕ, ◌<◌, suc, ◌-◌, ◌≤◌, ◌≡◌, refl, false, Option, List, [], ◌∷◌, ◌++◌, arith,
  ==_iff, ==_refl, contains, IsDistinct, IsDistinct-snoc, Dict, insert, erase, lookup-insert,
  lookup-erase, length, if◌then◌else◌, Error, Bool-cases, inl, inr, ap, sym,
}
use temporal_entity.Entity.Id.{RequestId}
use temporal_entity.Entity.Command.{Payload}
use temporal_entity.Wire.{
  OpResult, Envelope, op_result, evict, record_in, record_completed, completed_ops_cap,
}
use temporal_entity.Wire.Cache.{
  result_of, IsIndexed, entries, keep_newest, touched, HasCache, remembered,
}

pub length-entries :
    (order : List RequestId) (m : Dict OpResult) → length (entries order m) ≡ length order
unfolding entries
length-entries [] m = refl
length-entries (k ∷ order) m = ap suc (length-entries order m)

entries-erase :
    (k : RequestId) (order : List RequestId) (m : Dict OpResult)
    → contains k order ≡ false
    → entries order (erase k m) ≡ entries order m
unfolding entries contains
entries-erase k [] m h = refl
entries-erase k (j ∷ order) m h =
    ground (arith, entries-erase k order m, lookup-erase k j m, ==_iff k j, ==_iff j k)

entries-insert_ne :
    (k : RequestId) (r : OpResult) (order : List RequestId) (m : Dict OpResult)
    → contains k order ≡ false
    → entries order (insert k r m) ≡ entries order m
unfolding entries contains
entries-insert_ne k r [] m h = refl
entries-insert_ne k r (j ∷ order) m h =
    ground (arith, entries-insert_ne k r order m, lookup-insert k j r m, ==_iff k j, ==_iff j k)

-- A new id at the end, or an old id in its place, is an `insert` on the entries.
entries-insert :
    (k : RequestId) (r : OpResult) (order : List RequestId) (m : Dict OpResult)
    → IsDistinct order
    → entries (if contains k order then order else order ++ k ∷ []) (insert k r m)
      ≡ insert k r (entries order m)
unfolding entries contains insert
entries-insert k r [] m d = ground (arith, lookup-insert k k r m, ==_refl k)
entries-insert k r (j ∷ order) m d = ground (
  arith,
  entries-insert k r order m d.1,
  lookup-insert k j r m,
  lookup-insert k k r m,
  ==_refl k,
  ==_iff k j,
  ==_iff j k,
  entries-insert_ne k r order m,
)

pub evict_fits :
    (cap : ℕ) (order : List RequestId) (m : Dict OpResult)
    → length order ≤ cap
    → evict cap order m ≡ (order, m)
unfolding evict
evict_fits cap [] m h = refl
evict_fits cap (x ∷ order) m h = ground arith

pub evict_one :
    (cap : ℕ) (x : RequestId) (order : List RequestId) (m : Dict OpResult)
    → length order ≡ cap
    → evict cap (x ∷ order) m ≡ (order, erase x m)
unfolding evict
evict_one cap x order m h = ground (arith, evict_fits cap order (erase x m))

pub evict_more :
    (bound : ℕ) (x : RequestId) (order : List RequestId) (m : Dict OpResult)
    → bound < length (x ∷ order)
    → evict bound (x ∷ order) m ≡ evict bound order (erase x m)
unfolding evict
evict_more bound x order m h = ground arith

drop_suc : (n k : ℕ) → k ≤ n → suc n - k ≡ suc (n - k)
drop_suc n k h = omega arith

keep_newest_fits {ℓ} :
    {A : Type ℓ} (bound : ℕ) (xs : List A) → length xs ≤ bound → keep_newest bound xs ≡ xs
keep_newest_fits bound xs h = let e : length xs - bound ≡ 0 = omega arith in rw e

entries-evict :
    (bound : ℕ) (order : List RequestId) (m : Dict OpResult)
    → IsDistinct order
    → entries (evict bound order m).0 (evict bound order m).1 ≡ keep_newest bound (entries order m)
entries-evict bound [] m d = unfold evict entries in ground arith
entries-evict bound (x ∷ order) m d = elim (dec_lt bound (length (x ∷ order))) [
  | yes over ↦
      rw
        (
          evict_more bound x order m over,
          entries-evict bound order (erase x m) d.1,
          entries-erase x order m d.0,
        )
        (unfold entries in
          rw (drop_suc (length (entries order m)) bound (omega (arith, length-entries order m))))
  | no fits ↦ rw (evict_fits bound (x ∷ order) m (omega arith)) (
      sym (
        keep_newest_fits bound (entries (x ∷ order) m)
          (omega (arith, length-entries (x ∷ order) m))))
]

pub touched-IsDistinct :
    (id : RequestId) (order : List RequestId) → IsDistinct order → IsDistinct (touched id order)
touched-IsDistinct id order d = elim (Bool-cases (contains id order)) [
  | inl old ↦ rw old d
  | inr new ↦ rw new (IsDistinct-snoc id order d new)
]

-- The cache after one outcome: the entry is updated in its place or added as the newest, and the
-- oldest entries past the bound are gone.
record_in-refines :
    (bound : ℕ) (id : RequestId) (r : OpResult) (order : List RequestId) (m : Dict OpResult)
    → IsIndexed order m
    → let (order', m') = record_in bound id r order m in
      entries order' m' ≡ keep_newest bound (insert id r (entries order m))
unfolding record_in
record_in-refines bound id r order m c = rw c.same (
    rw
      (entries-evict bound (touched id order) (insert id r m)
        (touched-IsDistinct id order c.distinct))
      (rw (entries-insert id r order m c.distinct)))

-- What an id reads in the entries.
pub lookup-entries :
    (k : RequestId) (order : List RequestId) (m : Dict OpResult)
    → lookup k (entries order m) ≡ (if contains k order then some (result_of k m) else none)
unfolding entries contains lookup
lookup-entries k [] m = refl
lookup-entries k (j ∷ order) m = ground (arith, lookup-entries k order m, ==_iff j k, ==_iff k j)

-- In a well-formed cache it is what it reads in the map.
pub lookup-entries_indexed :
    (k : RequestId) (order : List RequestId) (m : Dict OpResult)
    → IsIndexed order m
    → lookup k m ≡ lookup k (entries order m)
lookup-entries_indexed k order m c = ground (arith, lookup-entries k order m, c.same k)

module _ {Spec State : Type 0} where
  -- The outcomes after `RecordCompleted`, in their order.
  pub remembered-record_completed :
      (id : RequestId) (res : Payload) (e : Option Error) (env : Envelope Spec State)
      → HasCache env
      → remembered (record_completed id res e env)
        ≡ keep_newest completed_ops_cap (insert id (op_result res e) (remembered env))
  unfolding record_completed
  remembered-record_completed id res e env c =
      record_in-refines completed_ops_cap id (op_result res e) env.completed_order env.completed
        c.indexed

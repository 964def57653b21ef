-- ===== src/Entdefine/Attributes/Sorted.antt =====
-- `labelValues` of pkg/entdefine/loop.go: the order of its result, and the order in which Go iterates
-- over the labels.
use temporal_entity.Base.{
  ◌≡◌, refl, ◌∙◌, ap, sym, inl, inr, true, false, none, some, List, [], ◌∷◌, map, Str, arith, Dict,
  lookup, erase, keys, contains, IsDistinct, All, ◌==◌, ==_iff, if◌then◌else◌, lookup-erase,
  lookup-of_not_contains, Bool-cases,
}
use temporal_entity.Entdefine.Attributes.{
  str_le, insert_sorted, sort_strings, keyword, label_values,
}

str_le_total : (s t : Str) → str_le s t ≡ false → str_le t s ≡ true
unfolding str_le
str_le_total [] t h = cc h
str_le_total (a ∷ s) [] h = refl
str_le_total (a ∷ s) (b ∷ t) h = ground (arith, str_le_total s t)

str_le_antisym : (s t : Str) → str_le s t ≡ true → str_le t s ≡ true → s ≡ t
unfolding str_le
str_le_antisym [] [] h k = refl
str_le_antisym [] (b ∷ t) h k = cc k
str_le_antisym (a ∷ s) [] h k = cc h
str_le_antisym (a ∷ s) (b ∷ t) h k = ground (arith, str_le_antisym s t)

str_le_trans : (s t u : Str) → str_le s t ≡ true → str_le t u ≡ true → str_le s u ≡ true
unfolding str_le
str_le_trans [] t u h k = refl
str_le_trans (a ∷ s) [] u h k = cc h
str_le_trans (a ∷ s) (b ∷ t) [] h k = cc k
str_le_trans (a ∷ s) (b ∷ t) (c ∷ u) h k = ground (arith, str_le_trans s t u)

-- Each string is at most those behind it.
abbrev pub IsAscending : List Str → Type 0
IsAscending [] = Unit {0}
IsAscending (s ∷ ss) = All (λ t. str_le s t ≡ true) ss × IsAscending ss

All-insert_sorted :
    (s t : Str) (ts : List Str)
    → str_le s t ≡ true
    → All (λ u. str_le s u ≡ true) ts
    → All (λ u. str_le s u ≡ true) (insert_sorted t ts)
unfolding insert_sorted
All-insert_sorted s t [] h a = (h, tt)
All-insert_sorted s t (u ∷ ts) h a = ground (arith, All-insert_sorted s t ts)

All-trans :
    (s t : Str) (ts : List Str)
    → str_le s t ≡ true
    → All (λ u. str_le t u ≡ true) ts
    → All (λ u. str_le s u ≡ true) ts
All-trans s t [] h a = tt
All-trans s t (u ∷ ts) h a = (str_le_trans s t u h a.0, All-trans s t ts h a.1)

insert_sorted-IsAscending :
    (s : Str) (ts : List Str) → IsAscending ts → IsAscending (insert_sorted s ts)
unfolding insert_sorted
insert_sorted-IsAscending s [] a = (tt, tt)
insert_sorted-IsAscending s (t ∷ ts) a = elim (Bool-cases (str_le s t)) [
  | inl le ↦ rw (le, insert_sorted) ((le, All-trans s t ts le a.0), a)
  | inr gt ↦
      rw (gt, insert_sorted)
        (All-insert_sorted t s ts (str_le_total s t gt) a.0, insert_sorted-IsAscending s ts a.1)
]

sort_strings-IsAscending : (ss : List Str) → IsAscending (sort_strings ss)
unfolding sort_strings
sort_strings-IsAscending [] = tt
sort_strings-IsAscending (s ∷ ss) =
    insert_sorted-IsAscending s (sort_strings ss) (sort_strings-IsAscending ss)

insert_sorted_comm :
    (s t : Str) (ts : List Str)
    → insert_sorted s (insert_sorted t ts) ≡ insert_sorted t (insert_sorted s ts)
unfolding insert_sorted
insert_sorted_comm s t [] = ground (arith, str_le_total s t, str_le_antisym s t)
insert_sorted_comm s t (u ∷ ts) = ground (
  arith,
  insert_sorted_comm s t ts,
  str_le_total s t,
  str_le_antisym s t,
  str_le_trans s t u,
  str_le_trans t s u,
)

contains-keys-erase :
    (k j : Str) (m : Dict Str)
    → contains j (keys (erase k m)) ≡ (if k == j then false else contains j (keys m))
unfolding erase contains
contains-keys-erase k j [] = ground arith
contains-keys-erase k j ((i, v) ∷ m) =
    ground (arith, contains-keys-erase k j m, ==_iff i k, ==_iff k j, ==_iff i j)

IsDistinct-erase : (k : Str) (m : Dict Str) → IsDistinct (keys m) → IsDistinct (keys (erase k m))
unfolding erase
IsDistinct-erase k [] d = tt
IsDistinct-erase k ((j, v) ∷ m) d = elim (Bool-cases (j == k)) [
  | inl same ↦ rw (same, erase) (IsDistinct-erase k m d.1)
  | inr other ↦
      rw (other, erase) (ground (arith, contains-keys-erase k j m, d.0), IsDistinct-erase k m d.1)
]

erase-absent : (k : Str) (m : Dict Str) → contains k (keys m) ≡ false → erase k m ≡ m
unfolding erase contains
erase-absent k [] h = refl
erase-absent k ((j, v) ∷ m) h = ground (arith, erase-absent k m)

-- A label may be taken out and put in last.
label_values-taken :
    (k v : Str) (m : Dict Str)
    → IsDistinct (keys m)
    → lookup k m ≡ some v
    → label_values m ≡ insert_sorted (keyword (k, v)) (label_values (erase k m))
unfolding label_values lookup erase
label_values-taken k v [] d h = cc h
label_values-taken k v ((j, u) ∷ m) d h = elim (Bool-cases (j == k)) [
  | inl same ↦
      let e : j ≡ k = (==_iff j k).0 same in
      let w : u ≡ v = cc (rw (same, lookup) at h) in
      rw (same, erase)
        (rw (erase-absent k m (rw (← e) d.0)) (
          ap (λ (p : Str × Str). insert_sorted (keyword p) (sort_strings (map keyword m)))
            (λ i. (e i, w i))))
  | inr other ↦
      rw (other, erase)
        (ap (insert_sorted (keyword (j, u)))
            (label_values-taken k v m d.1 (rw (other, lookup) at h))
          ∙ insert_sorted_comm (keyword (j, u)) (keyword (k, v))
              (sort_strings (map keyword (erase k m))))
]

lookup-cons :
    (i w : Str) (m : Dict Str) (j : Str)
    → lookup j ((i, w) ∷ m) ≡ (if i == j then some w else lookup j m)
unfolding lookup
lookup-cons i w m j = refl

nil_of_lookup : (m : Dict Str) → ((k : Str) → lookup k m ≡ none) → m ≡ []
unfolding lookup
nil_of_lookup [] h = refl
nil_of_lookup ((k, v) ∷ m) h = ground (arith, h k, ==_iff k k)

label_values_order :
    (a b : Dict Str)
    → IsDistinct (keys a)
    → IsDistinct (keys b)
    → ((k : Str) → lookup k a ≡ lookup k b)
    → label_values a ≡ label_values b
unfolding label_values
label_values_order [] b d e h =
    ap (λ m. sort_strings (map keyword m))
      (sym (nil_of_lookup b (λ k. sym (h k) ∙ (unfold lookup in refl))))
label_values_order ((k, v) ∷ a) b d e h =
    let there : lookup k b ≡ some v = sym (h k) ∙ (unfold lookup in ground (arith, ==_iff k k)) in
    ap (insert_sorted (keyword (k, v)))
      (label_values_order a (erase k b) d.1 (IsDistinct-erase k b e) (rest k v a b d.0 h))
    ∙ sym (label_values-taken k v b e there)
  where
    rest :
        (i w : Str) (m n : Dict Str)
        → contains i (keys m) ≡ false
        → ((j : Str) → lookup j ((i, w) ∷ m) ≡ lookup j n)
        → (j : Str) → lookup j m ≡ lookup j (erase i n)
    rest i w m n absent same j = ground (
      arith,
      same j,
      lookup-erase i j n,
      lookup-of_not_contains i m absent,
      ==_iff i j,
      lookup-cons i w m j,
    )

label_values-IsAscending : (labels : Dict Str) → IsAscending (label_values labels)
unfolding label_values
label_values-IsAscending labels = sort_strings-IsAscending (map keyword labels)

-- `labelValues` gives its keywords in ascending order of their bytes, and does not show the order in
-- which the map is iterated: two lists of labels with distinct keys that read alike give the same
-- keywords.
pub label_values_canonical :
    (a b : Dict Str)
    → IsDistinct (keys a)
    → IsDistinct (keys b)
    → ((k : Str) → lookup k a ≡ lookup k b)
    → (label_values a ≡ label_values b) × IsAscending (label_values a)
label_values_canonical a b d e h = (label_values_order a b d e h, label_values-IsAscending a)

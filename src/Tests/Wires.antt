-- ===== src/Tests/Wires.antt =====
-- The dedup cache and the label patches at concrete inputs.
use mathlib.Core.Path.{subst}
use temporal_entity.Base.{
  erase, Bool-cases, ==_iff, inl, inr, arith, ◌≡◌, refl, inl, inr, ℕ, true, none, [], ◌∷◌, codes,
  lookup, contains, Str, Dict, ◌==◌,
}
use temporal_entity.Wire.{Envelope, record_completed, merge_labels}
use temporal_entity.Wire.Cache.{HasCache, remembered}
use temporal_entity.Wire.Cache.Lookup.{record_completed-HasCache}
use temporal_entity.Wire.Labels.{merge_labels_order}
use temporal_entity.Entdefine.Attributes.{label_values}
use temporal_entity.Entdefine.Attributes.Sorted.{IsAscending, label_values_canonical}
use temporal_entity.Wire.Cache.Refined.{remembered_with, record_completed-refines}
use temporal_entity.Tests.Fixtures.{blank}

-- One outcome is recorded.
abbrev one : Envelope ℕ ℕ
one = record_completed (codes "r1") (codes "xy") none blank

pub blank-HasCache : HasCache blank
unfolding lookup contains
blank-HasCache = record {
  indexed = record { distinct = tt; same = λ k. refl };
  bounded = omega arith;
}

record_completed-refines_example :
    let n = record_completed (codes "r2") [] none one in
    (remembered n ≡ remembered_with (codes "r2") [] none one)
    × ((k : Str) → lookup k n.completed ≡ lookup k (remembered_with (codes "r2") [] none one))
    × HasCache n
record_completed-refines_example =
    record_completed-refines (codes "r2") [] none one
      (record_completed-HasCache (codes "r1") (codes "xy") none blank blank-HasCache)

abbrev labelled : Envelope ℕ ℕ
labelled = record blank { labels = (codes "team", codes "a") ∷ (codes "zone", codes "x") ∷ [] }

-- `team` is removed and `tier` is set.
abbrev patch : Dict Str
patch = (codes "team", []) ∷ (codes "tier", codes "b") ∷ []

abbrev patch_reversed : Dict Str
patch_reversed = (codes "tier", codes "b") ∷ (codes "team", []) ∷ []

merge_labels_changed : (merge_labels patch labelled).1 ≡ true
unfolding merge_labels lookup erase
merge_labels_changed = refl

same_patch : (k : Str) → lookup k patch ≡ lookup k patch_reversed
unfolding lookup
same_patch k = elim (Bool-cases (codes "team" == k)) [
  | inl e ↦
      subst (λ j. lookup j patch ≡ lookup j patch_reversed) ((==_iff (codes "team") k).0 e) refl
  | inr e ↦ rw e refl
]

merge_labels_order_example :
    ((k : Str)
      → lookup k (merge_labels patch labelled).0.labels
        ≡ lookup k (merge_labels patch_reversed labelled).0.labels)
    × ((merge_labels patch labelled).1 ≡ (merge_labels patch_reversed labelled).1)
unfolding contains
merge_labels_order_example =
    merge_labels_order patch patch_reversed labelled (refl, (refl, tt)) (refl, (refl, tt))
      same_patch

label_values_canonical_example :
    (label_values patch ≡ label_values patch_reversed) × IsAscending (label_values patch)
unfolding contains
label_values_canonical_example =
    label_values_canonical patch patch_reversed (refl, (refl, tt)) (refl, (refl, tt)) same_patch

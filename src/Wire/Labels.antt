-- ===== src/Wire/Labels.antt =====
-- `MergeLabels`: what a label patch does to each label, what its flag says, and Go's random order of
-- iteration over the patch.
use temporal_entity.Base.{
  ◌≡◌, refl, ◌≢◌, ◌↔◌, Bool, true, false, not, Option, none, some, [], ◌∷◌, arith, Str, ◌==◌,
  ==_iff, ==_refl, IsDistinct, Dict, lookup, has, keys, lookup-insert, lookup-erase,
  lookup-of_not_contains, if◌then◌else◌, Bool-cases, inl, inr, sym, ◌∙◌, ap,
}
use temporal_entity.Wire.{label_value, Envelope, merge_label, merge_into, merge_labels}

-- The label that a patch asks for, from its entry and the label that is there.
abbrev pub patched : Option Str → Option Str → Option Str
patched none old = old
patched (some v) old = if v == [] then none else some v

lookup-merge_label :
    (j k v : Str) (labels : Dict Str) (c : Bool)
    → lookup k (merge_label j v (labels, c)).0
      ≡ (if j == k then patched (some v) (lookup k labels) else lookup k labels)
unfolding merge_label
lookup-merge_label j k v labels c = ground (
  arith,
  lookup-insert j k v labels,
  lookup-erase j k labels,
  ==_iff j k,
  ==_iff v [],
  ==_iff (label_value j labels) v,
)

lookup-merge_into :
    (k : Str) (patch labels : Dict Str) (c : Bool)
    → IsDistinct (keys patch)
    → lookup k (merge_into patch (labels, c)).0 ≡ patched (lookup k patch) (lookup k labels)
unfolding merge_into lookup
lookup-merge_into k [] labels c d = refl
lookup-merge_into k ((j, v) ∷ patch) labels c d =
    let (labels', c') = merge_label j v (labels, c) in
    ground (
      arith,
      lookup-merge_into k patch labels' c' d.1,
      lookup-merge_label j k v labels c,
      ==_iff j k,
      lookup-of_not_contains j patch d.0,
    )

-- Does one round change its label?
abbrev is_change : Str → Str → Dict Str → Bool
is_change j v labels = if v == [] then has j labels else not (label_value j labels == v)

merge_label_kept :
    (j v : Str) (labels : Dict Str) (c : Bool)
    → is_change j v labels ≡ false
    → merge_label j v (labels, c) ≡ (labels, c)
unfolding merge_label
merge_label_kept j v labels c h = elim (Bool-cases (v == [])) [
  | inl e ↦ rw e (ground (arith, e))
  | inr e ↦ rw e (ground (arith, e))
]

merge_label_flag :
    (j v : Str) (labels : Dict Str) (c : Bool)
    → is_change j v labels ≡ true
    → (merge_label j v (labels, c)).1 ≡ true
unfolding merge_label
merge_label_flag j v labels c h = elim (Bool-cases (v == [])) [
  | inl e ↦ rw e (ground (arith, e))
  | inr e ↦ rw e (ground (arith, e))
]

patched_ne :
    (j v : Str) (labels : Dict Str)
    → is_change j v labels ≡ true
    → patched (some v) (lookup j labels) ≢ lookup j labels
unfolding label_value
patched_ne j v labels h =
    λ e. ground (arith, ==_iff v [], ==_iff (label_value j labels) v, ==_refl v)

merge_into_sticky :
    (patch labels : Dict Str) (c : Bool) → c ≡ true → (merge_into patch (labels, c)).1 ≡ true
unfolding merge_into
merge_into_sticky [] labels c h = h
merge_into_sticky ((j, v) ∷ patch) labels c h =
    let (labels', c') = merge_label j v (labels, c) in
    merge_into_sticky patch labels' c' (elim (Bool-cases (is_change j v labels)) [
      | inl e ↦ merge_label_flag j v labels c e
      | inr e ↦ rw (merge_label_kept j v labels c e) h
    ])

merge_into-cons_kept :
    (j v : Str) (patch labels : Dict Str)
    → is_change j v labels ≡ false
    → merge_into ((j, v) ∷ patch) (labels, false) ≡ merge_into patch (labels, false)
unfolding merge_into
merge_into-cons_kept j v patch labels e =
    ap (merge_into patch) (merge_label_kept j v labels false e)

-- The flag is false: the labels are as they were.
merge_into_kept :
    (patch labels : Dict Str)
    → (merge_into patch (labels, false)).1 ≡ false
    → (merge_into patch (labels, false)).0 ≡ labels
merge_into_kept [] labels h = unfold merge_into in refl
merge_into_kept ((j, v) ∷ patch) labels h = elim (Bool-cases (is_change j v labels)) [
  | inl e ↦
      let (labels', c') = merge_label j v (labels, false) in
      unfold merge_into in
      cc (h, merge_into_sticky patch labels' c' (merge_label_flag j v labels false e))
  | inr e ↦
      rw (merge_into-cons_kept j v patch labels e)
        (merge_into_kept patch labels (rw (merge_into-cons_kept j v patch labels e) at h))
]

lookup-cons_self : (j v : Str) (m : Dict Str) → lookup j ((j, v) ∷ m) ≡ some v
unfolding lookup
lookup-cons_self j v m = rw (==_refl j)

-- The flag is true: some label is not what it was.
merge_into_changed :
    (patch labels : Dict Str)
    → IsDistinct (keys patch)
    → (merge_into patch (labels, false)).1 ≡ true
    → (k : Str) × (lookup k (merge_into patch (labels, false)).0 ≢ lookup k labels)
merge_into_changed [] labels d h = unfold merge_into in cc h
merge_into_changed ((j, v) ∷ patch) labels d h = elim (Bool-cases (is_change j v labels)) [
  | inl e ↦ (
    j,
    λ p.
        patched_ne j v labels e
          (cc (p, lookup-merge_into j ((j, v) ∷ patch) labels false d, lookup-cons_self j v patch)),
  )
  | inr e ↦
      rw (merge_into-cons_kept j v patch labels e)
        (merge_into_changed patch labels d.1 (rw (merge_into-cons_kept j v patch labels e) at h))
]

module _ {Spec State : Type 0} where
  -- After a patch with distinct keys, a label that the patch does not name is as it was, one that it
  -- names with the empty value is absent, and any other has the patch's value.
  pub lookup-merge_labels :
      (k : Str) (patch : Dict Str) (env : Envelope Spec State)
      → IsDistinct (keys patch)
      → lookup k (merge_labels patch env).0.labels ≡ patched (lookup k patch) (lookup k env.labels)
  unfolding merge_labels
  lookup-merge_labels k patch env d = lookup-merge_into k patch env.labels false d

  -- On a patch with distinct keys, `MergeLabels` returns false exactly when every label reads as
  -- before.
  pub merge_labels_flag :
      (patch : Dict Str) (env : Envelope Spec State)
      → IsDistinct (keys patch)
      → ((merge_labels patch env).1 ≡ false)
        ↔ ((k : Str) → lookup k (merge_labels patch env).0.labels ≡ lookup k env.labels)
  unfolding merge_labels
  merge_labels_flag patch env d = (
    (λ h k. ap (lookup k) (merge_into_kept patch env.labels h)),
    (λ h. elim (Bool-cases (merge_into patch (env.labels, false)).1) [
      | inl e ↦ let (k, ne) = merge_into_changed patch env.labels d e in absurd (ne (h k))
      | inr e ↦ e
    ]),
  )

  -- Two lists with distinct keys that read alike, as two orders of the iteration over one patch do,
  -- give the same labels and the same flag.
  pub merge_labels_order :
      (p q : Dict Str) (env : Envelope Spec State)
      → IsDistinct (keys p)
      → IsDistinct (keys q)
      → ((k : Str) → lookup k p ≡ lookup k q)
      → ((k : Str)
          → lookup k (merge_labels p env).0.labels ≡ lookup k (merge_labels q env).0.labels)
        × ((merge_labels p env).1 ≡ (merge_labels q env).1)
  merge_labels_order p q env dp dq same = (labels_same, flags)
    where
      labels_same :
          (k : Str)
          → lookup k (merge_labels p env).0.labels ≡ lookup k (merge_labels q env).0.labels
      labels_same k =
          lookup-merge_labels k p env dp
          ∙ ap (λ o. patched o (lookup k env.labels)) (same k)
          ∙ sym (lookup-merge_labels k q env dq)

      flags : (merge_labels p env).1 ≡ (merge_labels q env).1
      flags = elim (Bool-cases (merge_labels p env).1) [
        | inr e ↦
            e
            ∙ sym (
                (merge_labels_flag q env dq).1
                  (λ k. sym (labels_same k) ∙ (merge_labels_flag p env dp).0 e k))
        | inl e ↦ elim (Bool-cases (merge_labels q env).1) [
          | inl f ↦ e ∙ sym f
          | inr f ↦
              (merge_labels_flag p env dp).1
                (λ k. labels_same k ∙ (merge_labels_flag q env dq).0 f k)
              ∙ sym f
        ]
      ]

merge_label_same :
    (j v : Str) (labels : Dict Str) (c : Bool)
    → (merge_label j v (labels, c)).1 ≡ false
    → ((merge_label j v (labels, c)).0 ≡ labels) × (c ≡ false)
unfolding merge_label
merge_label_same j v labels c h = ground arith

merge_into_same :
    (patch labels : Dict Str) (c : Bool)
    → (merge_into patch (labels, c)).1 ≡ false
    → ((merge_into patch (labels, c)).0 ≡ labels) × (c ≡ false)
unfolding merge_into
merge_into_same [] labels c h = (refl, h)
merge_into_same ((k, v) ∷ patch) labels c h =
    let (labels', c') = merge_label k v (labels, c) in
    let (rest, unset) = merge_into_same patch labels' c' h in
    let (one, clear) = merge_label_same k v labels c unset in (rest ∙ one, clear)

-- A patch that reports no change leaves the map itself as it was.
pub merge_labels_same :
    {Spec State : Type 0} (patch : Dict Str) (env : Envelope Spec State)
    → (merge_labels patch env).1 ≡ false
    → (merge_labels patch env).0.labels ≡ env.labels
unfolding merge_labels
merge_labels_same patch env h = (merge_into_same patch env.labels false h).0

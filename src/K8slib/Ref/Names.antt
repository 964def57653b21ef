-- ===== src/K8slib/Ref/Names.antt =====
-- `ParseObjectRef` and `ID`, one after the other.
use mathlib.Core.Path.{ap₂}
use temporal_entity.Base.{
  if◌then◌else◌, ◌≤◌, Bool-cases, ℕ, zero, suc, ◌+◌, ◌≡◌, ◌≢◌, refl, sym, ap, ◌∙◌, Bool, false,
  ◌||◌, some, [], ◌∷◌, ◌++◌, Str, byte_eq, length, leb, take, drop, take-length-append,
  length-append, Result, ok, arith, Option-cases, inl, inr,
}
use temporal_entity.K8slib.Ref.{ObjectRef, ref_id, index_byte, parse_object_ref}

-- The byte is not in the string.
abbrev pub Avoids : ℕ → Str → Type 0
Avoids c [] = Unit
Avoids c (x ∷ s) = (byte_eq x c ≡ false) × Avoids c s

index_byte-append : (c : ℕ) (s t : Str) → Avoids c s → index_byte c (s ++ c ∷ t) ≡ some (length s)
unfolding index_byte
index_byte-append c [] t a = ground arith
index_byte-append c (x ∷ s) t a = rw (a.0, index_byte-append c s t a.1) refl

-- The text before the index, the byte, the text behind it.
split_at_index : (c i : ℕ) (s : Str) → index_byte c s ≡ some i → take i s ++ c ∷ drop (suc i) s ≡ s
unfolding index_byte
split_at_index c i [] h = cc h
split_at_index c zero (x ∷ s) h = let e : x ≡ c = ground arith in ap (λ y. y ∷ s) (sym e)
split_at_index c (suc i) (x ∷ s) h =
    let k : index_byte c s ≡ some i = ground arith in ap (λ l. x ∷ l) (split_at_index c i s k)

length-nonempty : (s : Str) → s ≢ [] → 1 ≤ length s
length-nonempty [] h = absurd (h refl)
length-nonempty (x ∷ s) h = omega arith

drop_past : (s : Str) (c : ℕ) (t : Str) → drop (suc (length s)) (s ++ c ∷ t) ≡ t
drop_past [] c t = refl
drop_past (x ∷ s) c t = drop_past s c t

-- The guard of `ParseObjectRef` on an index.
abbrev is_bad : ℕ → Str → Bool
is_bad i s = leb i 0 || byte_eq (i + 1) (length s)

is_bad-ref_id :
    (r : ObjectRef)
    → r.namespace ≢ []
    → r.name ≢ []
    → is_bad (length r.namespace) (ref_id r) ≡ false
is_bad-ref_id r some_namespace some_name = ground (
  arith,
  length-append r.namespace (b'/' ∷ r.name),
  length-nonempty r.namespace some_namespace,
  length-nonempty r.name some_name,
)

suc_add : (n : ℕ) → n + 1 ≡ suc n
suc_add n = omega arith

-- A reference with a namespace that is not empty and has no slash, and a name that is not empty, is
-- what `ParseObjectRef` reads from its id.
pub parse_object_ref-ref_id :
    (r : ObjectRef)
    → r.namespace ≢ []
    → Avoids b'/' r.namespace
    → r.name ≢ []
    → parse_object_ref (ref_id r) ≡ ok r
unfolding parse_object_ref
parse_object_ref-ref_id r some_namespace a some_name =
    rw (parse_object_ref, index_byte-append b'/' r.namespace r.name a)
      (rw (is_bad-ref_id r some_namespace some_name) (
        ap₂ (λ n m. ok (record { namespace = n; name = m }))
          (take-length-append r.namespace (b'/' ∷ r.name))
          (ap (λ k. drop k (ref_id r)) (suc_add (length r.namespace))
            ∙ drop_past r.namespace b'/' r.name)))

taken :
    (i : ℕ) (s : Str) (r : ObjectRef) (e : Result ObjectRef)
    → e ≢ ok r
    → index_byte b'/' s ≡ some i
    → (if is_bad i s then e else ok (record { namespace = take i s; name = drop (i + 1) s })) ≡ ok r
    → ref_id r ≡ s
taken i s r e refuses found h = elim (Bool-cases (is_bad i s)) [
  | inl bad ↦ absurd (refuses (rw bad at h))
  | inr good ↦
      let read : ok (record { namespace = take i s; name = drop (i + 1) s }) ≡ ok r =
        rw good at h in
      let same : record { namespace = take i s; name = drop (i + 1) s } ≡ r = cc read in
      ap ref_id (sym same)
      ∙ ap (λ k. take i s ++ b'/' ∷ drop k s) (suc_add i)
      ∙ split_at_index b'/' i s found
]

-- What `ParseObjectRef` reads has the text as its id.
pub ref_id-parse_object_ref : (s : Str) (r : ObjectRef) → parse_object_ref s ≡ ok r → ref_id r ≡ s
unfolding parse_object_ref
ref_id-parse_object_ref s r h = elim (Option-cases (index_byte b'/' s)) [
  | inl missing ↦ cc (rw (missing, parse_object_ref) at h)
  | inr (i, found) ↦ taken i s r _ (λ k. cc k) found (rw (found, parse_object_ref) at h)
]

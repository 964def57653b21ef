-- ===== src/Entity/Id/Shape.antt =====
-- Which strings are resource ids.
use temporal_entity.Base.{
  ◌≡◌, ◌≢◌, ◌↔◌, refl, ap, Bool, true, false, [], ◌∷◌, ◌++◌, Str, ◌==◌, ==_iff, ok, arith,
}
use temporal_entity.Entity.Id.{
  starts_with_slash, ends_with_slash, validate_resource, parse_resource_id,
}

-- Not empty, and without a slash at either end.
abbrev pub IsResourceId : Str → Type 0
IsResourceId s = (s ≢ []) × ((t : Str) → s ≢ b'/' ∷ t) × ((t : Str) → s ≢ t ++ b'/' ∷ [])

starts_with_slash-cons : (t : Str) → starts_with_slash (b'/' ∷ t) ≡ true
unfolding starts_with_slash
starts_with_slash-cons t = refl

ends_with_slash-append : (t : Str) → ends_with_slash (t ++ b'/' ∷ []) ≡ true
unfolding ends_with_slash
ends_with_slash-append [] = refl
ends_with_slash-append (c ∷ []) = refl
ends_with_slash-append (c ∷ x ∷ t) = ends_with_slash-append (x ∷ t)

starts : (s : Str) → starts_with_slash s ≡ true → (t : Str) × (s ≡ b'/' ∷ t)
unfolding starts_with_slash
starts [] h = cc h
starts (c ∷ s) h = let e : c ≡ b'/' = ground arith in (s, ap (λ x. x ∷ s) e)

ends : (s : Str) → ends_with_slash s ≡ true → (t : Str) × (s ≡ t ++ b'/' ∷ [])
unfolding ends_with_slash
ends [] h = cc h
ends (c ∷ []) h = let e : c ≡ b'/' = ground arith in ([], ap (λ x. x ∷ []) e)
ends (c ∷ x ∷ s) h = let (t, e) = ends (x ∷ s) h in (c ∷ t, ap (λ l. c ∷ l) e)

refused : (b : Bool) → (b ≡ true → ⊥) → b ≡ false
refused true h = absurd (h refl)
refused false h = refl

-- The same in the Boolean tests of the code.
abbrev Passes : Str → Type 0
Passes s = ((s == []) ≡ false) × (starts_with_slash s ≡ false) × (ends_with_slash s ≡ false)

parse_resource_id-Passes : (s r : Str) → (parse_resource_id s ≡ ok r) ↔ ((r ≡ s) × Passes s)
unfolding parse_resource_id validate_resource
parse_resource_id-Passes s r = ground arith

Passes-IsResourceId : (s : Str) → Passes s ↔ IsResourceId s
Passes-IsResourceId s = (shaped, passes)
  where
    shaped : Passes s → IsResourceId s
    shaped h = (
      (λ e. cc (h.0, (==_iff s []).1 e)),
      (λ t e. cc (h.1, ap starts_with_slash e, starts_with_slash-cons t)),
      (λ t e. cc (h.2, ap ends_with_slash e, ends_with_slash-append t)),
    )

    passes : IsResourceId s → Passes s
    passes h = (
      refused (s == []) (λ e. h.0 ((==_iff s []).0 e)),
      refused (starts_with_slash s) (λ e. let (t, p) = starts s e in h.1 t p),
      refused (ends_with_slash s) (λ e. let (t, p) = ends s e in h.2 t p),
    )

-- `ParseResourceID` returns a resource id exactly on the strings that are not empty and neither
-- start nor end with a slash, and it returns the string itself.
pub parse_resource_id-IsResourceId :
    (s r : Str) → (parse_resource_id s ≡ ok r) ↔ ((r ≡ s) × IsResourceId s)
parse_resource_id-IsResourceId s r = (
  (λ h. let p = (parse_resource_id-Passes s r).0 h in (p.0, (Passes-IsResourceId s).0 p.1)),
  (λ h. (parse_resource_id-Passes s r).1 (h.0, (Passes-IsResourceId s).1 h.1)),
)

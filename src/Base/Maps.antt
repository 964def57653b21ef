-- ===== src/Base/Maps.antt =====
-- Go's maps with string keys, as association lists. A nil map reads as the empty one, and every
-- write of the modelled code is made to a map that it has made before.
use mathlib.Core.Path.{◌≡◌, refl}
use mathlib.Core.Bool.{Bool, true, false}
use mathlib.Core.Option.{Option, none, some}
use mathlib.Core.List.{List, [], ◌∷◌}
use native.Mathlib.Omega.{arith}
use temporal_entity.Base.Tests.{if◌then◌else◌}
use temporal_entity.Base.Text.{Str, ◌==◌, ==_iff, contains, IsDistinct}

abbrev pub Dict {ℓ} : Type ℓ → Type ℓ
Dict V = List (Str × V)

module _ {ℓ} {V : Type ℓ} where
  unfoldable pub lookup : Str → Dict V → Option V
  unfolding ◌==◌
  lookup key [] = none
  lookup key ((name, value) ∷ rest) = if name == key then some value else lookup key rest

  -- `m[k] = v`
  unfoldable pub insert : Str → V → Dict V → Dict V
  unfolding ◌==◌
  insert key new [] = (key, new) ∷ []
  insert key new ((name, value) ∷ rest) =
      if name == key then (key, new) ∷ rest else (name, value) ∷ insert key new rest

  -- `delete(m, k)`
  unfoldable pub erase : Str → Dict V → Dict V
  unfolding ◌==◌
  erase k [] = []
  erase k ((j, v) ∷ m) = let rest = erase k m in if j == k then rest else (j, v) ∷ rest

  -- `_, ok := m[k]`
  abbrev pub has : Str → Dict V → Bool
  has k m = elim (lookup k m) [ none ↦ false | some _ ↦ true ]

  abbrev pub keys : Dict V → List Str
  keys [] = []
  keys ((k, v) ∷ m) = k ∷ keys m

module _ {ℓ} {V : Type ℓ} where
  pub lookup-nil : (k : Str) → lookup {V = V} k [] ≡ none
  unfolding lookup
  lookup-nil k = refl

  pub lookup-insert :
      (written read : Str) (new : V) (entries : Dict V)
      → lookup read (insert written new entries)
        ≡ (if written == read then some new else lookup read entries)
  unfolding lookup insert
  lookup-insert written read new [] = refl
  lookup-insert written read new ((name, value) ∷ rest) = ground (
    arith,
    lookup-insert written read new rest,
    ==_iff written read,
    ==_iff name written,
    ==_iff name read,
  )

  pub lookup-erase :
      (k j : Str) (m : Dict V) → lookup j (erase k m) ≡ (if k == j then none else lookup j m)
  unfolding lookup erase
  lookup-erase k j [] = ground arith
  lookup-erase k j ((i, w) ∷ m) =
      ground (arith, ==_iff k j, ==_iff i k, ==_iff i j, lookup-erase k j m)

  -- `for k, v := range m { out[k] = v }`
  unfoldable pub put_all : Dict V → Dict V → Dict V
  put_all out [] = out
  put_all out ((k, v) ∷ m) = put_all (insert k v out) m

  abbrev pub or_else : Option V → Option V → Option V
  or_else none b = b
  or_else (some v) b = some v

  pub lookup-of_not_contains :
      (k : Str) (m : Dict V) → contains k (keys m) ≡ false → lookup k m ≡ none
  unfolding lookup contains
  lookup-of_not_contains k [] h = refl
  lookup-of_not_contains k ((j, v) ∷ m) h = ground (arith, lookup-of_not_contains k m)

  pub contains-keys : (k : Str) (m : Dict V) → contains k (keys m) ≡ has k m
  unfolding lookup contains
  contains-keys k [] = refl
  contains-keys k ((j, v) ∷ m) = ground (arith, contains-keys k m)

  -- A map's keys are distinct, so the order of the iteration does not show in a lookup.
  pub lookup-put_all :
      (k : Str) (out m : Dict V)
      → IsDistinct (keys m)
      → lookup k (put_all out m) ≡ or_else (lookup k m) (lookup k out)
  unfolding put_all lookup
  lookup-put_all k out [] d = refl
  lookup-put_all k out ((j, v) ∷ m) d = ground (
    arith,
    lookup-put_all k (insert j v out) m d.1,
    lookup-insert j k v out,
    lookup-of_not_contains j m d.0,
    ==_iff j k,
  )

  pub not_has : (k : Str) (m : Dict V) → lookup k m ≡ none → has k m ≡ false
  not_has k m h = rw (h, has)

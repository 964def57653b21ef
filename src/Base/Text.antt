-- ===== src/Base/Text.antt =====
-- Go's strings: sequences of bytes. `codes` writes an ASCII literal.
use Prim.Native.Nat.{ℕ, compare, Ordering}
use Prim.Native.Char.{code}
use Prim.Native.String.{String}
use mathlib.Core.Path.{◌≡◌, refl}
use mathlib.Core.Logic.{◌↔◌}
use mathlib.Core.Bool.{Bool, true, false, ◌&&◌, ◌||◌}
use mathlib.Core.List.{List, [], ◌∷◌, ◌++◌}
use native.Mathlib.Omega.{arith}

abbrev pub Str : Type 0
Str = List ℕ

abbrev pub codes : String → Str
codes String.[] = []
codes (String.◌∷◌ c s) = code c ∷ codes s

abbrev pub byte_eq : ℕ → ℕ → Bool
byte_eq a b = elim (compare a b) [ Ordering.eq ↦ true | _ ↦ false ]

infix 50 ◌==◌
-- Equality of two strings.
unfoldable pub ◌==◌ : Str → Str → Bool
[] == [] = true
[] == (b ∷ t) = false
(a ∷ s) == [] = false
(a ∷ s) == (b ∷ t) = byte_eq a b && s == t

pub ==_iff : (s t : Str) → ((s == t) ≡ true) ↔ (s ≡ t)
unfolding ◌==◌
==_iff [] [] = ground arith
==_iff [] (b ∷ t) = ground arith
==_iff (a ∷ s) [] = ground arith
==_iff (a ∷ s) (b ∷ t) = ground (arith, ==_iff s t)

pub ==_refl : (s : Str) → (s == s) ≡ true
==_refl s = (==_iff s s).1 refl

-- `slices.Contains` on strings: does a list hold `k`?
unfoldable pub contains : Str → List Str → Bool
unfolding ◌==◌
contains k [] = false
contains k (x ∷ xs) = x == k || contains k xs

pub contains-append :
    (k : Str) (xs ys : List Str) → contains k (xs ++ ys) ≡ (contains k xs || contains k ys)
unfolding contains
contains-append k [] ys = refl
contains-append k (x ∷ xs) ys = ground (arith, contains-append k xs ys)

-- No string is listed twice.
abbrev pub IsDistinct : List Str → Type 0
IsDistinct [] = Unit
IsDistinct (x ∷ xs) = (contains x xs ≡ false) × IsDistinct xs

pub IsDistinct-snoc :
    (k : Str) (xs : List Str) → IsDistinct xs → contains k xs ≡ false → IsDistinct (xs ++ k ∷ [])
unfolding contains
IsDistinct-snoc k [] d h = (refl, tt)
IsDistinct-snoc k (x ∷ xs) d h = (
  ground (arith, contains-append x xs (k ∷ []), ==_iff k x, ==_iff x k),
  IsDistinct-snoc k xs d.1 (ground arith),
)

-- ===== src/Base/Decimal.antt =====
-- The `%d` verb of `fmt` on an `int`, and `strconv.Itoa`.
use Prim.Native.Nat.{ℕ, zero, suc, ◌+◌, ◌*◌, ◌-◌, ◌/◌, ◌%◌, ◌<◌}
use mathlib.Core.Path.{◌≡◌, ap, ◌∙◌}
use mathlib.Core.List.{[], ◌∷◌}
use native.Mathlib.Omega.{arith}
use temporal_entity.Base.Tests.{ltb, if◌then◌else◌, Bool-cases}
use temporal_entity.Base.Text.{Str}
use temporal_entity.Base.Integers.{ℤ, pos, negsuc}
use mathlib.Core.Logic.{inl, inr}

-- The digits of a number before those that are there already. One digit is taken in a step, so that a
-- fuel above the number is enough.
digits : ℕ → ℕ → Str → Str
digits zero n rest = rest
digits (suc fuel) n rest =
    let more = digits fuel (n / 10) ((b'0' + n % 10) ∷ rest) in
    if ltb n 10 then (b'0' + n) ∷ rest else more

unfoldable pub decimal : ℕ → Str
unfolding digits
decimal n = digits (suc n) n []

unfoldable pub show_int : ℤ → Str
unfolding decimal
show_int (pos n) = decimal n
show_int (negsuc n) = b'-' ∷ decimal (suc n)

-- The number that a text of digits goes on to from a number.
pub read_on : ℕ → Str → ℕ
read_on v [] = v
read_on v (c ∷ s) = read_on (10 * v + (c - b'0')) s

one_step : (n : ℕ) → 10 * (n / 10) + ((b'0' + n % 10) - b'0') ≡ n
one_step n = omega arith

read_on-digits :
    (fuel n : ℕ) (rest : Str) → n < fuel → read_on 0 (digits fuel n rest) ≡ read_on n rest
unfolding digits read_on
read_on-digits zero n rest h = ground arith
read_on-digits (suc fuel) n rest h = elim (Bool-cases (ltb n 10)) [
  | inl small ↦ rw small (ap (λ v. read_on v rest) (omega arith))
  | inr large ↦ rw large (
      read_on-digits fuel (n / 10) ((b'0' + n % 10) ∷ rest) (ground arith)
      ∙ ap (λ v. read_on v rest) (one_step n))
]

-- The decimal form of a number reads as the number.
pub read_on-decimal : (n : ℕ) → read_on 0 (decimal n) ≡ n
unfolding decimal read_on
read_on-decimal n = read_on-digits (suc n) n [] (omega arith)

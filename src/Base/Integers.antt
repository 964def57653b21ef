-- ===== src/Base/Integers.antt =====
-- Go's `int`, in the range where it does not overflow: `negsuc n` is -(n + 1).
use Prim.Native.Nat.{ℕ, suc, ◌+◌, ◌-◌, compare, Ordering}
use mathlib.Core.Path.{◌≡◌}
use mathlib.Core.Bool.{Bool, true, false}
use native.Mathlib.Omega.{arith}
use temporal_entity.Base.Tests.{ltb, leb, if◌then◌else◌}

pub data ℤ : Type 0 where
  pos : ℕ → ℤ
  negsuc : ℕ → ℤ

abbrev pub pos_part : ℤ → ℕ
pos_part (pos n) = n
pos_part (negsuc n) = 0

abbrev pub neg_part : ℤ → ℕ
neg_part (pos n) = 0
neg_part (negsuc n) = suc n

-- a - b, as an integer.
abbrev pub sub_ℕ : ℕ → ℕ → ℤ
sub_ℕ a b = if leb b a then pos (a - b) else negsuc (b - a - 1)

infix 50 ◌<ℤ◌
-- The test `a < b`.
abbrev pub ◌<ℤ◌ : ℤ → ℤ → Bool
a <ℤ b = ltb (pos_part a + neg_part b) (pos_part b + neg_part a)

infix 50 ◌=ℤ◌
-- The test `a == b`.
abbrev pub ◌=ℤ◌ : ℤ → ℤ → Bool
a =ℤ b = elim (compare (pos_part a + neg_part b) (pos_part b + neg_part a)) [
  | Ordering.eq ↦ true
  | _ ↦ false
]

-- `a++`
abbrev pub increment : ℤ → ℤ
increment a = sub_ℕ (suc (pos_part a)) (neg_part a)

-- How far `a` lies below `b`: 0 if it does not.
abbrev pub distance : ℤ → ℤ → ℕ
distance a b = pos_part b + neg_part a - (pos_part a + neg_part b)

pub distance-increment : (a b : ℤ) (n : ℕ) → distance a b ≡ suc n → distance (increment a) b ≡ n
distance-increment a b n h = ground arith

pub lt_of_distance : (a b : ℤ) (n : ℕ) → distance a b ≡ suc n → (a <ℤ b) ≡ true
lt_of_distance a b n h = ground arith

pub not_lt_of_distance : (a b : ℤ) → distance a b ≡ 0 → (a <ℤ b) ≡ false
not_lt_of_distance a b h = ground arith

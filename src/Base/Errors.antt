-- ===== src/Base/Errors.antt =====
-- Go's `error` and the pair of a value and an error. An error is its message, and the type of the
-- first `temporal.ApplicationError` of its chain, which `errors.As` finds.
use mathlib.Core.Path.{◌≡◌, refl}
use mathlib.Core.Logic.{◌⊎◌, inl, inr}
use mathlib.Core.Option.{Option, none, some}
use mathlib.Core.List.{◌++◌}
use temporal_entity.Base.Text.{Str, codes}

pub record Error : Type 0 where
  pub message : Str
  pub app_type : Option Str

pub data Result {ℓ} (A : Type ℓ) : Type ℓ where
  ok : A → Result A
  err : Error → Result A

-- `errors.New`
abbrev pub new_error : Str → Error
new_error m = record { message = m; app_type = none }

-- `fmt.Errorf("...: %w", err)`: the wrapped error stays in the chain.
abbrev pub wrap : Str → Error → Error
wrap prefix e = record e { message = prefix ++ codes ": " ++ e.message }

-- The error of a step that has one, with a prefix.
abbrev pub wrap_err {ℓ} : {A : Type ℓ} → Str → Result A → Result A
wrap_err prefix (ok a) = ok a
wrap_err prefix (err e) = err (wrap prefix e)

-- A check that returns an error or nil.
abbrev pub Check : Type 0
Check = Option Error

abbrev pub to_result {ℓ} : {A : Type ℓ} → Check → A → Result A
to_result none a = ok a
to_result (some e) a = err e

-- `if err := first; err != nil { return err }; return second`
abbrev pub and_then : Check → Check → Check
and_then none second = second
and_then (some e) second = some e

pub and_then_assoc : (a b c : Check) → and_then (and_then a b) c ≡ and_then a (and_then b c)
and_then_assoc none b c = refl
and_then_assoc (some e) b c = refl

pub Result-cases {ℓ} :
    {A : Type ℓ} (r : Result A) → ((a : A) × (r ≡ ok a)) ⊎ ((e : Error) × (r ≡ err e))
Result-cases (ok a) = inl (a, refl)
Result-cases (err e) = inr (e, refl)

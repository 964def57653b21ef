-- ===== src/Entdefine/Saga.antt =====
-- pkg/entdefine/saga.go: `Saga`, steps with compensations. `W` is the world on which the activities
-- of the steps act. The proofs are in the modules below.
pub mod Rollback
pub mod Restore
pub mod Steps
use temporal_entity.Base.{
  ◌≡◌, refl, ◌∙◌, ap, sym, ◌⊎◌, inl, inr, Option, none, some, List, [], ◌∷◌, ◌++◌, reverse, Str,
  codes, quote, Error, Check, wrap,
}
use temporal_entity.Entdefine.Definition.{join_errors}
use mathlib.Core.List.{append_assoc, append-nil}

pub record SagaStep (W : Type 0) : Type 0 where
  pub name : Str
  pub forward : W → W × Check
  pub compensate : Option (W → W × Check)

abbrev pub Saga : Type 0 → Type 0
Saga W = List (SagaStep W)

-- `NewSaga`
abbrev pub new_saga : {W : Type 0} → Saga W
new_saga = []

module _ {W : Type 0} where
  -- `Step`
  abbrev pub step : Str → (W → W × Check) → Option (W → W × Check) → Saga W → Saga W
  step name forward compensate s =
      s ++ record { name = name; forward = forward; compensate = compensate } ∷ []

  unfoldable pub forward_error : SagaStep W → Error → Error
  forward_error st e = wrap (codes "saga step " ++ quote st.name) e

  unfoldable pub compensate_error : SagaStep W → Check → List Error → List Error
  compensate_error st none es = es
  compensate_error st (some e) es = wrap (codes "compensate " ++ quote st.name) e ∷ es

  -- The inner loop of `Run`, on the completed steps from the last to the first.
  unfoldable pub compensate_all : List (SagaStep W) → W → W × List Error
  unfolding compensate_error
  compensate_all [] w = (w, [])
  compensate_all (c ∷ cs) w = elim c.compensate [
    | none ↦ compensate_all cs w
    | some undo ↦
        let (w', e) = undo w in
        let (w'', es) = compensate_all cs w' in (w'', compensate_error c e es)
  ]

  unfoldable pub fail_with : List (SagaStep W) → SagaStep W → Error → W → W × Check
  unfolding compensate_all forward_error
  fail_with completed st e w =
      let (w', es) = compensate_all (reverse completed) w in
      (w', some (join_errors (forward_error st e ∷ es)))

  -- The outer loop of `Run`, with the steps completed so far.
  unfoldable pub run_from : List (SagaStep W) → Saga W → W → W × Check
  unfolding fail_with
  run_from completed [] w = (w, none)
  run_from completed (st ∷ s) w =
      let (w', e) = st.forward w in
      elim e [ none ↦ run_from (completed ++ st ∷ []) s w' | some f ↦ fail_with completed st f w' ]

  -- `Run`
  unfoldable pub run : Saga W → W → W × Check
  unfolding run_from
  run s w = run_from [] s w

-- ===== src/Entdefine/Saga/Steps.antt =====
-- How pkg/entdefine/saga.go goes on from a step whose outcome is known.
use temporal_entity.Base.{
  ◌≡◌, ◌∙◌, ap, Option, none, some, List, [], ◌∷◌, ◌++◌, reverse, Error, Check,
}
use temporal_entity.Entdefine.Definition.{join_errors}
use temporal_entity.Entdefine.Saga.{
  Saga, SagaStep, run_from, fail_with, compensate_all, compensate_error, forward_error,
}

module _ {W : Type 0} where
  pub run_from-ok :
      (completed : Saga W) (st : SagaStep W) (s : Saga W) (w v : W)
      → st.forward w ≡ (v, none)
      → run_from completed (st ∷ s) w ≡ run_from (completed ++ st ∷ []) s v
  unfolding run_from
  run_from-ok completed st s w v h =
      ap
        (λ (r : W × Check). elim r.1 [
          | none ↦ run_from (completed ++ st ∷ []) s r.0
          | some f ↦ fail_with completed st f r.0
        ])
        h

  pub run_from-failed :
      (completed : Saga W) (st : SagaStep W) (s : Saga W) (w v : W) (e : Error)
      → st.forward w ≡ (v, some e)
      → run_from completed (st ∷ s) w ≡ fail_with completed st e v
  unfolding run_from
  run_from-failed completed st s w v e h =
      ap
        (λ (r : W × Check). elim r.1 [
          | none ↦ run_from (completed ++ st ∷ []) s r.0
          | some f ↦ fail_with completed st f r.0
        ])
        h

  pub compensate_all-undo :
      (c : SagaStep W) (cs : List (SagaStep W)) (undo : W → W × Check) (w v : W)
      → c.compensate ≡ some undo
      → undo w ≡ (v, none)
      → compensate_all (c ∷ cs) w ≡ compensate_all cs v
  unfolding compensate_all
  compensate_all-undo c cs undo w v h u =
      ap
        (λ (o : Option (W → W × Check)). elim o [
          | none ↦ compensate_all cs w
          | some f ↦
              let (w', e) = f w in
              let (w'', es) = compensate_all cs w' in (w'', compensate_error c e es)
        ])
        h
      ∙ ap
          (λ (r : W × Check).
            let (w'', es) = compensate_all cs r.0 in (w'', compensate_error c r.1 es))
          u

  pub compensate_all-skip :
      (c : SagaStep W) (cs : List (SagaStep W)) (w : W)
      → c.compensate ≡ none
      → compensate_all (c ∷ cs) w ≡ compensate_all cs w
  unfolding compensate_all
  compensate_all-skip c cs w h =
      ap
        (λ (o : Option (W → W × Check)). elim o [
          | none ↦ compensate_all cs w
          | some f ↦
              let (w', e) = f w in
              let (w'', es) = compensate_all cs w' in (w'', compensate_error c e es)
        ])
        h

  -- A failure whose compensations succeed gives its own error alone.
  pub fail_with-cleanly :
      (completed : List (SagaStep W)) (st : SagaStep W) (e : Error) (w v : W)
      → compensate_all (reverse completed) w ≡ (v, [])
      → fail_with completed st e w ≡ (v, some (join_errors (forward_error st e ∷ [])))
  unfolding fail_with
  fail_with-cleanly completed st e w v h =
      ap (λ (r : W × List Error). (r.0, some (join_errors (forward_error st e ∷ r.1)))) h

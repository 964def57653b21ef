-- ===== src/Entdefine/Saga/Restore.antt =====
-- `Saga.Run` on steps whose compensations take back what they did.
use temporal_entity.Base.{◌⊎◌, ◌≡◌, none, some, List, [], ◌∷◌, Error, Check}
use temporal_entity.Entdefine.Definition.{join_errors}
use temporal_entity.Entdefine.Saga.{SagaStep, Saga, forward_error}

module _ {W : Type 0} where
  -- A step that leaves the world alone when it fails, and whose compensation, which succeeds, takes
  -- the world back to where the step found it; without a compensation it changes nothing.
  pub record IsUndoable (st : SagaStep W) : Type 0 where
    pub fails_cleanly : (w v : W) (e : Error) → st.forward w ≡ (v, some e) → v ≡ w
    pub undoes :
        (w v : W) (undo : W → W × Check)
        → st.forward w ≡ (v, none)
        → st.compensate ≡ some undo
        → undo v ≡ (w, none)
    pub keeps : (w v : W) → st.forward w ≡ (v, none) → st.compensate ≡ none → v ≡ w

  -- A run that succeeds, or that is back in a world with the error of one step alone.
  abbrev pub Restores : W → W × Check → Type 0
  Restores w0 r =
      (r.1 ≡ none)
      ⊎ ((st : SagaStep W) × (e : Error) × (r ≡ (w0, some (join_errors (forward_error st e ∷ [])))))

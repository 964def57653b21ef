-- ===== src/Entdefine/Saga/Rollback.antt =====
-- `Saga.Run`: which steps run, and which are compensated in which order.
use temporal_entity.Base.{
  Option, ◌≡◌, refl, ap, sym, none, some, List, [], ◌∷◌, ◌++◌, reverse, Error, Check,
}
use mathlib.Core.Path.{subst}
use mathlib.Core.List.{append_assoc, append-nil}
use temporal_entity.Entdefine.Definition.{join_errors}
use temporal_entity.Entdefine.Saga.{
  SagaStep, Saga, forward_error, compensate_error, compensate_all, run_from, fail_with, run,
}

module _ {W : Type 0} where
  -- Every step of the list succeeds, one after the other.
  pub data Forwarded : Saga W → W → W → Type 0 where
    done : {w : W} → Forwarded [] w w
    then :
        {st : SagaStep W} {s : Saga W} {w v u : W}
        → st.forward w ≡ (v, none)
        → Forwarded s v u
        → Forwarded (st ∷ s) w u

  -- The compensations of the list run, one after the other, and give these errors; a step without a
  -- compensation is passed over.
  pub data Compensated : List (SagaStep W) → W → W → List Error → Type 0 where
    nothing : {w : W} → Compensated [] w w []
    skipped :
        {st : SagaStep W} {s : List (SagaStep W)} {w v : W} {es : List Error}
        → st.compensate ≡ none
        → Compensated s w v es
        → Compensated (st ∷ s) w v es
    undone :
        {st : SagaStep W} {s : List (SagaStep W)} {w v u : W} {e : Check} {es : List Error}
        {undo : W → W × Check}
        → st.compensate ≡ some undo
        → undo w ≡ (v, e)
        → Compensated s v u es
        → Compensated (st ∷ s) w u (compensate_error st e es)

  compensates :
      (c : SagaStep W) (cs : List (SagaStep W)) (w : W) (o : Option (W → W × Check))
      → c.compensate ≡ o
      → ((v : W) → Compensated cs v (compensate_all cs v).0 (compensate_all cs v).1)
      → let r : W × List Error = elim o [
        | none ↦ compensate_all cs w
        | some undo ↦ (
          (compensate_all cs (undo w).0).0,
          compensate_error c (undo w).1 (compensate_all cs (undo w).0).1,
        )
      ] in
        Compensated (c ∷ cs) w r.0 r.1
  compensates c cs w none h rest = skipped h (rest w)
  compensates c cs w (some undo) h rest = undone h refl (rest (undo w).0)

  compensate_all-Compensated :
      (s : List (SagaStep W)) (w : W)
      → Compensated s w (compensate_all s w).0 (compensate_all s w).1
  unfolding compensate_all
  compensate_all-Compensated [] w = nothing
  compensate_all-Compensated (c ∷ cs) w =
      compensates c cs w c.compensate refl (λ v. compensate_all-Compensated cs v)

  -- What a run can come to: all steps succeeded, or one failed and those before it are compensated
  -- from the last to the first.
  pub data Ran (completed s : Saga W) (w : W) : W × Check → Type 0 where
    succeeded : {v : W} → Forwarded s w v → Ran completed s w (v, none)
    rolled_back :
        (before : Saga W) (st : SagaStep W) (after : Saga W) {v u t : W} {e : Error}
        {es : List Error}
        → s ≡ before ++ st ∷ after
        → Forwarded before w v
        → st.forward v ≡ (u, some e)
        → Compensated (reverse (completed ++ before)) u t es
        → Ran completed s w (t, some (join_errors (forward_error st e ∷ es)))

  extends :
      (st : SagaStep W) (s completed : Saga W) {w v : W} {r : W × Check}
      → st.forward w ≡ (v, none)
      → Ran (completed ++ st ∷ []) s v r
      → Ran completed (st ∷ s) w r
  extends st s completed h (succeeded f) = succeeded (then h f)
  extends st s completed h (rolled_back before s' after {u = u} {t} {es = es} split f failed undo) =
      rolled_back (st ∷ before) s' after (ap (λ l. st ∷ l) split) (then h f) failed
        (subst (λ l. Compensated (reverse l) u t es) (append_assoc completed (st ∷ []) before) undo)

  fail_with-Ran :
      (st : SagaStep W) (s completed : Saga W) {w v : W} {e : Error}
      → st.forward w ≡ (v, some e)
      → Ran completed (st ∷ s) w (fail_with completed st e v)
  unfolding fail_with
  fail_with-Ran st s completed {v = v} h =
      let (u, es) = compensate_all (reverse completed) v in
      rolled_back [] st s refl done h (
        subst (λ l. Compensated (reverse l) v u es) (sym (append-nil completed))
          (compensate_all-Compensated (reverse completed) v))

  -- After the step's outcome, the rest of the run is what `Ran` says.
  goes_on :
      (st : SagaStep W) (s completed : Saga W) (w : W) (o : W × Check)
      → st.forward w ≡ o
      → ((v : W) → Ran (completed ++ st ∷ []) s v (run_from (completed ++ st ∷ []) s v))
      → Ran completed (st ∷ s) w (elim o.1 [
        | none ↦ run_from (completed ++ st ∷ []) s o.0
        | some f ↦ fail_with completed st f o.0
      ])
  goes_on st s completed w (v, none) h rest = extends st s completed h (rest v)
  goes_on st s completed w (v, some e) h rest = fail_with-Ran st s completed h

  run_from-Ran : (s completed : Saga W) (w : W) → Ran completed s w (run_from completed s w)
  unfolding run_from
  run_from-Ran [] completed w = succeeded done
  run_from-Ran (st ∷ s) completed w =
      goes_on st s completed w (st.forward w) refl (λ v. run_from-Ran s (completed ++ st ∷ []) v)

  -- `Run` executes the steps in order; if all of them succeed it returns nil, and on the first that
  -- fails it runs the compensations of the steps before it, from the last to the first, whatever
  -- errors they give, and returns the error of the step joined with theirs.
  pub run_lem : (s : Saga W) (w : W) → Ran [] s w (run s w)
  run_lem s w = unfold run in run_from-Ran s [] w

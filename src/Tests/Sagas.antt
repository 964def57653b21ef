-- ===== src/Tests/Sagas.antt =====
-- A saga of three steps whose last step fails.
use temporal_entity.Base.{◌≡◌, refl, ℕ, ◌+◌, ◌-◌, none, some, [], codes, Check, new_error}
use temporal_entity.Entdefine.Saga.{Saga, new_saga, step, run}
use temporal_entity.Entdefine.Saga.Rollback.{Ran, run_lem}

-- The world is a number: a step adds to it, its compensation takes that back.
abbrev adds : ℕ → ℕ → ℕ × Check
adds k w = (w + k, none)

abbrev takes : ℕ → ℕ → ℕ × Check
takes k w = (w - k, none)

abbrev fails : ℕ → ℕ × Check
fails w = (w, some (new_error (codes "no")))

abbrev order : Saga ℕ
order =
    step (codes "c") fails none
      (step (codes "b") (adds 20) none (step (codes "a") (adds 1) (some (takes 1)) new_saga))

-- The second step has no compensation, so its effect stays.
order_ends : (run order 5).0 ≡ 25
unfolding run
order_ends = refl

run_lem_example : Ran [] order 5 (run order 5)
run_lem_example = run_lem order 5

abbrev undoable : Saga ℕ
undoable = step (codes "b") fails none (step (codes "a") (adds 3) (some (takes 3)) new_saga)

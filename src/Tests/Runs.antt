-- ===== src/Tests/Runs.antt =====
-- Runs of the main loop: a creation with one command that continues as new, and a deletion.
use temporal_entity.Base.{
  All, arith, insert, ◌≡◌, refl, inl, ℕ, true, false, none, [], ◌∷◌, ◌++◌, codes, lookup, has,
  contains, Str,
}
use temporal_entity.Entity.State.{Phase}
use temporal_entity.Wire.{merge_labels, record_completed}
use temporal_entity.Entdefine.Context.{mutate_all, view}
use temporal_entity.Wire.Cache.{HasCache}
use temporal_entity.Entdefine.Rejected.{WillFail, pending_fail}
use temporal_entity.Entdefine.Loop.{
  begin_delete, Machine, Outcome, Reach, here, begin_run, receive_update, validate_update,
  at_continue, at_top, at_drain, closed, resumes, proceeds,
}
use temporal_entity.Entdefine.Queue.{arrivals, departures, in_flight}
use temporal_entity.Wire.{CommandEnvelope}
use temporal_entity.Entdefine.Dedup.{run-HasCache}
use temporal_entity.Entdefine.Lifecycle.{IsConsistent, run-IsConsistent}
use temporal_entity.Entdefine.Carried.{continued_envelope}
use temporal_entity.Entdefine.Emptied.{Accounted, queue-Accounted}
use temporal_entity.Entdefine.Serial.Invariant.{IsSerial}
use temporal_entity.Entdefine.Serial.Run.{run-IsSerial}
use temporal_entity.Entdefine.Serving.{Advances, Served, queue-Served}
use temporal_entity.Entdefine.Draining.{deletion_ends}
use temporal_entity.Entdefine.Marked.{marked_takes_nothing}
use temporal_entity.Entdefine.Mirror.{IsMirrored, run-IsMirrored}
use temporal_entity.Entdefine.Rollover.{update_during_rollover_hangs}
use temporal_entity.Tests.Fixtures.{
  patches, counter, blank, add, add_args, after, reaches, one_command, rollover, deletion,
}

abbrev name : Str
name = codes "counter/one"

abbrev start : Machine ℕ ℕ ℕ
start = begin_run patches counter 0 blank none

abbrev served : Machine ℕ ℕ ℕ
served = after patches name counter one_command start

abbrev rolled : Machine ℕ ℕ ℕ
rolled = after patches name counter rollover start

abbrev deleting : Machine ℕ ℕ ℕ
deleting = after patches name counter deletion start

-- The command was run: it added 2 to the 5 that the creation put there.
served_state : served.env.state ≡ 7
unfolding after begin_run view lookup mutate_all merge_labels record_completed insert contains
served_state = refl

served_waits : (served.pc ≡ at_continue) × (served.waiting ≡ codes "r1" ∷ [])
unfolding after begin_run lookup mutate_all merge_labels record_completed insert contains
served_waits = (refl, refl)

deleting_drains : (deleting.pc ≡ at_drain) × (deleting.env.pending ≡ [])
unfolding after begin_run lookup mutate_all merge_labels record_completed insert contains
deleting_drains = (refl, refl)

blank-HasCache : HasCache blank
unfolding lookup contains
blank-HasCache = record {
  indexed = record { distinct = tt; same = λ k. refl };
  bounded = omega arith;
}

queue-Accounted_example :
    ([] ++ arrivals served.history
      ≡ departures served.history ++ (in_flight served.pc ++ served.env.pending))
    × Accounted patches name counter blank served.pc served
queue-Accounted_example =
    queue-Accounted patches name counter 0 blank none (inl refl)
      (reaches patches name counter one_command start start here)

-- `add` with the payload "xy"; it is sent again with nothing, which its validator would refuse.
abbrev adding : CommandEnvelope
adding = record { request_id = codes "r1"; name = add; payload = codes "xy" }

run-HasCache_example : HasCache served.env
run-HasCache_example =
    run-HasCache patches name counter 0 blank none blank-HasCache
      (reaches patches name counter one_command start start here)

run-IsSerial_example :
    IsSerial patches name counter 0 blank served
    × ([] ++ arrivals served.history
        ≡ departures served.history ++ (in_flight served.pc ++ served.env.pending))
run-IsSerial_example =
    run-IsSerial patches name counter 0 blank none (inl refl) blank-HasCache
      (reaches patches name counter one_command start start here)

run-IsConsistent_example : IsConsistent served
run-IsConsistent_example =
    run-IsConsistent patches name counter 0 blank none (inl refl)
      (reaches patches name counter one_command start start here)

continued_envelope_example :
    (served.env.pending ≡ []) × (served.env.initialized ≡ true) × (served.env.phase ≡ Phase.ready)
unfolding after begin_run lookup mutate_all merge_labels record_completed insert contains
continued_envelope_example =
    continued_envelope patches name counter 0 blank none {m = rolled} served.env (inl refl)
      (reaches patches name counter rollover start start here) refl

-- A machine at the head of the loop with two commands in its queue.
abbrev loaded : Machine ℕ ℕ ℕ
loaded = record served {
  pc = at_top;
  env = record served.env {
    pending =
        record { request_id = codes "r2"; name = add; payload = codes "z" }
        ∷ record { request_id = codes "r3"; name = codes "no-such"; payload = [] }
        ∷ [];
  };
}

queue-Served_example :
    (n : Machine ℕ ℕ ℕ) × Advances patches name counter loaded n
    × Served patches name counter loaded.env.pending [] loaded n
unfolding after begin_run lookup mutate_all merge_labels record_completed insert contains
queue-Served_example = queue-Served patches name counter loaded refl refl

deletion_ends_example :
    (n : Machine ℕ ℕ ℕ) × (e : Outcome ℕ ℕ) × Reach patches name counter deleting n
    × (n.pc ≡ closed e)
    × (n.waiting ≡ [])
unfolding after begin_run lookup mutate_all merge_labels record_completed insert contains
deletion_ends_example = deletion_ends patches name counter deleting refl ((_, refl), tt)

marked_takes_nothing_example :
    (deleting.env.marked_for_deletion ≡ true)
    × (arrivals deleting.history ≡ arrivals deleting.history)
unfolding after begin_run lookup mutate_all merge_labels record_completed insert contains
marked_takes_nothing_example =
    marked_takes_nothing patches name counter {m = deleting} {o = deleting} refl here

run-IsMirrored_example : IsMirrored counter served
run-IsMirrored_example =
    run-IsMirrored patches name counter refl 0 blank none (λ h. cc h)
      (reaches patches name counter one_command start start here)

abbrev late : Machine ℕ ℕ ℕ
late = receive_update patches name counter add (add_args (codes "r2") (codes "z")) served

update_during_rollover_hangs_example :
    let o =
      after patches name counter
        (resumes (codes "r1") ∷ resumes (codes "r2") ∷ proceeds ∷ [])
        late in
    (o.pc ≡ at_continue)
    × (contains (codes "r2") o.waiting ≡ true)
    × (has (codes "r2") o.env.completed ≡ false)
unfolding after begin_run lookup mutate_all merge_labels record_completed insert contains
    validate_update
update_during_rollover_hangs_example =
    update_during_rollover_hangs patches name counter add (add_args (codes "r2") (codes "z")) served
      refl refl refl
      (reaches patches name counter (resumes (codes "r1") ∷ resumes (codes "r2") ∷ proceeds ∷ [])
        late late here)

pending_fail_example :
    All (WillFail (begin_delete patches counter loaded).env.completed) loaded.env.pending
unfolding after begin_run lookup mutate_all merge_labels record_completed insert contains
pending_fail_example =
    pending_fail patches counter loaded
      (run-HasCache patches name counter 0 blank none blank-HasCache
        (reaches patches name counter one_command start start here))
      (refl, (refl, tt)) (refl, (refl, tt)) (omega arith)

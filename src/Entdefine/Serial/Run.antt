-- ===== src/Entdefine/Serial/Run.antt =====
-- Runs of pkg/entdefine/loop.go as sequences on the sequential entity.
use temporal_entity.Base.{
  ◌≡◌, refl, ◌∙◌, ap, sym, inl, inr, Bool, Option, List, [], ◌∷◌, ◌++◌, Str, Dict, Check,
}
use temporal_entity.Entity.State.{Phase}
use temporal_entity.Entity.Command.{Codec}
use temporal_entity.Wire.{Envelope, CommandEnvelope}
use temporal_entity.Wire.Cache.{HasCache}
use temporal_entity.Entdefine.Attributes.{Attributes}
use temporal_entity.Entdefine.Definition.{Definition}
use temporal_entity.Entdefine.Loop.{
  Machine, Event, Reach, executed, at_command, at_top, at_continue, at_idle, closed, failed,
  begin_delete, begin_run, with_pending, receive_delete, settle_init,
}
use temporal_entity.Entdefine.Effects.{Effect}
use temporal_entity.Entdefine.Effects.Commands.{
  run_set_labels-Effect, run_unknown-Effect, finish_command-Effect,
}
use temporal_entity.Entdefine.Effects.Stages.{begin_delete-Effect, settle_init-Effect}
use temporal_entity.Entdefine.Induction.{Kept, Created}
use temporal_entity.Entdefine.Induction.Steps.{reach_keeps}
use temporal_entity.Entdefine.Lifecycle.{
  IsConsistent-Kept, IsStartable, begin_run-IsConsistent, Agrees-at,
}
use temporal_entity.Entdefine.Dedup.{HasCache-Kept, begin_run-HasCache}
use temporal_entity.Entdefine.Queue.{arrivals, departures, in_flight, queue_in_order}
use temporal_entity.Entdefine.Serial.{entity_of, serve}
use temporal_entity.Entdefine.Serial.Simulation.{
  finish_command-serves, run_set_labels-serves, run_unknown-serves, serve_declared-serve,
  begin_delete-replays, settle_init-entity,
}
use temporal_entity.Entdefine.Serial.Invariant.{
  IsSerial, is_past, IsSound, IsStarting, Runs, Runs-at, Waits-at, after-Effect, IsDispatched-at,
}
use temporal_entity.Entdefine.Serial.Steps.{
  replay-executed, drains-Serial, finalizes-Serial, reconciles-Serial, settles-Serial,
}
use temporal_entity.Entdefine.Serial.Answers.{AnswersTruly-rejected}
use temporal_entity.Entdefine.Serial.Entry.{
  SoundRest, accepts-Serial, answers-Serial, begin_run-IsSerial,
}

module _ {W Spec State : Type 0} (patches : Codec (Dict Str)) (workflow_id : Str)
    (d : Definition W Spec State) (w0 : W) (env0 : Envelope Spec State) where
  abbrev Sound : Machine W Spec State → Type 0
  Sound = IsSound patches workflow_id d w0 env0

  executes-Serial :
      {m n : Machine W Spec State} {c : CommandEnvelope} {stage : Phase} {started : Bool}
      {queue : List CommandEnvelope}
      → Effect m n (executed c ∷ []) at_top stage started queue
      → entity_of n ≡ serve patches d c (entity_of m)
      → Runs patches workflow_id d w0 env0 m
      → SoundRest patches workflow_id d w0 env0 n
  executes-Serial {m} {n} {c} e same r =
      after-Effect patches workflow_id d w0 env0 e refl refl
        (same ∙ sym (replay-executed patches workflow_id d c (entity_of m))) tt r

  -- A round that leaves the machine at the head of the loop.
  at_top-Effect :
      {m n : Machine W Spec State} {events : List Event} {stage : Phase} {started : Bool}
      {queue : List CommandEnvelope}
      → m.pc ≡ at_top
      → Effect m n events m.pc stage started queue
      → Effect m n events at_top stage started queue
  at_top-Effect h e = record {
    history = e.history;
    pc = e.pc ∙ h;
    phase = e.phase;
    initialized = e.initialized;
    pending = e.pending;
    waiting = e.waiting;
    marked = e.marked;
  }

  begins_delete-Serial :
      (m : Machine W Spec State)
      → m.pc ≡ at_top
      → HasCache m.env
      → IsSerial patches workflow_id d w0 env0 m
      → SoundRest patches workflow_id d w0 env0 (begin_delete patches d m)
  begins_delete-Serial m h c s =
      after-Effect patches workflow_id d w0 env0 (begin_delete-Effect patches d m) refl refl
        (begin_delete-replays patches d m c)
        (AnswersTruly-rejected patches d m.env.pending (entity_of m))
        (Runs-at patches workflow_id d w0 env0 m at_top h refl s)

  settled-Serial :
      (r : W × State × Check) (m : Machine W Spec State)
      → IsStarting m.pc
      → Created patches workflow_id d Sound r m
      → IsSerial patches workflow_id d w0 env0 m
      → SoundRest patches workflow_id d w0 env0 (settle_init patches d r m)
  settled-Serial r m h c s =
      let n = settle_init patches d r m in
      let runs = λ (e : n.history ≡ m.history ++ []).
        settles-Serial patches workflow_id d w0 env0 r m h c s n e
          (settle_init-entity patches d r m) in
      elim (settle_init-Effect patches d r m) [
        | inl e ↦ (
          IsDispatched-at patches workflow_id d w0 env0 n at_top e.pc refl,
          inr (ap is_past e.pc, runs e.history),
        )
        | inr (inl (marked, e)) ↦ (
          IsDispatched-at patches workflow_id d w0 env0 n at_top e.pc refl,
          inr (ap is_past e.pc, runs e.history),
        )
        | inr (inr (f, unmarked, e)) ↦ (
          IsDispatched-at patches workflow_id d w0 env0 n (closed (failed f)) e.pc refl,
          inr (ap is_past e.pc, runs e.history),
        )
      ]

  IsSound-Kept : Kept patches workflow_id d Sound
  IsSound-Kept =
      let a = IsConsistent-Kept patches workflow_id d in
      let k = HasCache-Kept patches workflow_id d in
      let past = Runs-at patches workflow_id d w0 env0 in
      record {
        begins_delete = λ m h u p.
            let rest = begins_delete-Serial m h p.1 p.3 in
            (a.begins_delete m h u p.0, k.begins_delete m h u p.1, rest.0, rest.1);
        labels = λ c cs m h u q built_in p.
            let rest =
              executes-Serial {m = with_pending patches d cs m}
                (at_top-Effect h (run_set_labels-Effect patches d c (with_pending patches d cs m)))
                (run_set_labels-serves patches d c (with_pending patches d cs m) p.1 built_in)
                (past m at_top h refl p.3) in
            (
              a.labels c cs m h u q built_in p.0,
              k.labels c cs m h u q built_in p.1,
              rest.0,
              rest.1,
            );
        unknowns = λ c cs m h u q declared unknown p.
            let rest =
              executes-Serial {m = with_pending patches d cs m}
                (at_top-Effect h (run_unknown-Effect patches d c (with_pending patches d cs m)))
                (run_unknown-serves patches d c (with_pending patches d cs m) p.1 declared unknown)
                (past m at_top h refl p.3) in
            (
              a.unknowns c cs m h u q declared unknown p.0,
              k.unknowns c cs m h u q declared unknown p.1,
              rest.0,
              rest.1,
            );
        takes = λ c cs m h u q declared p. (
          a.takes c cs m h u q declared p.0,
          k.takes c cs m h u q declared p.1,
          (λ c' e. let same : c ≡ c' = cc e in rw (← same) declared),
          inr (refl, past m at_top h refl p.3),
        );
        rolls = λ m h u q wanted p. (
          a.rolls m h u q wanted p.0,
          k.rolls m h u q wanted p.1,
          (λ c e. cc e),
          inr (refl, past m at_top h refl p.3),
        );
        idles = λ m h u q p. (
          a.idles m h u q p.0,
          k.idles m h u q p.1,
          (λ c e. cc e),
          inr (refl, past m at_top h refl p.3),
        );
        commands = λ cmd c m h found p.
            let rest =
              executes-Serial (finish_command-Effect patches d cmd c m)
                (finish_command-serves patches d cmd c m p.1 (Agrees-at m (at_command c) h p.0).0
                  ∙ sym (serve_declared-serve patches d cmd c (entity_of m) (p.2 c h) found))
                (past m (at_command c) h refl p.3) in
            (a.commands cmd c m h found p.0, k.commands cmd c m h found p.1, rest.0, rest.1);
        drains = λ m h quiet p.
            let rest = drains-Serial patches workflow_id d w0 env0 m h p.3 in
            (a.drains m h quiet p.0, k.drains m h quiet p.1, rest.0, rest.1);
        finalizes = λ r m h given p.
            let rest = finalizes-Serial patches workflow_id d w0 env0 r m h given p.3 in
            (a.finalizes r m h given p.0, k.finalizes r m h given p.1, rest.0, rest.1);
        continues = λ m h quiet p. (
          a.continues m h quiet p.0,
          k.continues m h quiet p.1,
          (λ c e. cc e),
          inr (refl, past m at_continue h refl p.3),
        );
        wakes = λ m h p. (
          a.wakes m h p.0,
          k.wakes m h p.1,
          (λ c e. cc e),
          inr (refl, past m at_idle h refl p.3),
        );
        expires = λ m h p. (
          a.expires m h p.0,
          k.expires m h p.1,
          (λ c e. cc e),
          inr (refl, past m at_idle h refl p.3),
        );
        reconciles = λ m h p.
            let rest = reconciles-Serial patches workflow_id d w0 env0 m h p.0 p.2 p.3 in
            (a.reconciles m h p.0, k.reconciles m h p.1, rest.0, rest.1);
        settles = λ r m h given p.
            let rest = settled-Serial r m h given p.3 in
            (a.settles r m h given p.0, k.settles r m h given p.1, rest.0, rest.1);
        cancels = λ m h marked p. (
          a.cancels m h marked p.0,
          k.cancels m h marked p.1,
          (λ c e. cc e),
          inl (inr refl, Waits-at patches workflow_id d w0 env0 m (inl h) p.3),
        );
        accepts = λ name args m b taken p.
            let rest = accepts-Serial patches workflow_id d w0 env0 name args m p.1 (p.2, p.3) in
            (a.accepts name args m b taken p.0, k.accepts name args m b taken p.1, rest.0, rest.1);
        answers = λ id r m b there found p.
            let rest = answers-Serial patches workflow_id d w0 env0 id r m p.1 found (p.2, p.3) in
            (
              a.answers id r m b there found p.0,
              k.answers id r m b there found p.1,
              rest.0,
              rest.1,
            );
        deletions = λ m b p. (
          a.deletions m b p.0,
          k.deletions m b p.1,
          unfold receive_delete in p.2,
          unfold receive_delete in p.3,
        );
        suggestions = λ m b p. p;
      }

  -- A run is sequential: if it starts from a new envelope or a ready one, with a well-formed cache,
  -- then in every machine that it reaches, whatever was interleaved, either the creation has not
  -- returned and the entity is as it came, or the world, the spec, the state, the labels and the
  -- remembered outcomes are what the events of its history, one command at a time, make of the entity
  -- as it came or as its creation left it; every answer that a caller got was the outcome that the
  -- sequential entity remembered for its request at that point; and the commands of that history,
  -- then the one being executed and those in the queue, are those that the envelope brought and those
  -- that arrived, in the order of arrival.
  pub run-IsSerial :
      (published : Option Attributes) {m : Machine W Spec State}
      → IsStartable env0
      → HasCache env0
      → Reach patches workflow_id d (begin_run patches d w0 env0 published) m
      → IsSerial patches workflow_id d w0 env0 m
        × (env0.pending ++ arrivals m.history
            ≡ departures m.history ++ (in_flight m.pc ++ m.env.pending))
  run-IsSerial published startable cache r =
      let rest = begin_run-IsSerial patches workflow_id d w0 env0 published in
      let sound =
        reach_keeps patches workflow_id d Sound IsSound-Kept
          (
            begin_run-IsConsistent patches workflow_id d w0 env0 published startable,
            begin_run-HasCache patches workflow_id d w0 env0 published cache,
            rest.0,
            rest.1,
          )
          r in
      (sound.3, queue_in_order patches workflow_id d w0 env0 published r)

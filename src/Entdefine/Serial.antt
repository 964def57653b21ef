-- ===== src/Entdefine/Serial.antt =====
-- The sequential view of an entity, for pkg/entdefine/loop.go: one command at a time against a world,
-- a spec, a state, labels and a bounded memory of outcomes, with no queue, no handlers and no
-- interleaving. The proofs that relate a run to it are in the modules below.
pub mod Simulation
pub mod Answers
pub mod Invariant
pub mod Steps
pub mod Entry
pub mod Run
use temporal_entity.Base.{
  ◌≡◌, ◌⊎◌, Bool, false, Option, none, some, List, [], ◌∷◌, ◌++◌, Str, Dict, lookup, insert,
  put_all, ◌==◌, Result, ok, err, Check, if◌then◌else◌,
}
use temporal_entity.Entity.Id.{RequestId}
use temporal_entity.Entity.State.{Phase, set_labels_command_name}
use temporal_entity.Entity.Command.{Payload, Codec}
use temporal_entity.Wire.{
  Envelope, CommandEnvelope, OpResult, op_result, merge_into, completed_ops_cap,
}
use temporal_entity.Wire.Cache.{remembered, keep_newest}
use temporal_entity.Entdefine.Context.{View, Mutation, put_spec, put_state, put_label}
use temporal_entity.Entdefine.Definition.{Definition, CommandImpl}
use temporal_entity.Entdefine.Loop.{
  Event, Machine, executed, rejected, answered, reconciled, finalized, rejected_error,
  unknown_error, value_of, error_of, update_result,
}

pub record Entity (W Spec State : Type 0) : Type 0 where
  pub world : W
  pub spec : Spec
  pub state : State
  pub labels : Dict Str
  -- the outcomes that are remembered, oldest first
  pub memory : Dict OpResult

module _ {W Spec State : Type 0} where
  abbrev pub of_parts : W → Envelope Spec State → Entity W Spec State
  of_parts w env = record {
    world = w;
    spec = env.spec;
    state = env.state;
    labels = env.labels;
    memory = remembered env;
  }

  -- The abstraction: what a machine is, queue and handlers forgotten.
  abbrev pub entity_of : Machine W Spec State → Entity W Spec State
  entity_of m = of_parts m.world m.env

  -- A patch of labels, whatever it changes.
  abbrev pub patched : Dict Str → Entity W Spec State → Entity W Spec State
  patched patch s = record s { labels = (merge_into patch (s.labels, false)).0 }

  unfoldable pub change : Mutation Spec State → Entity W Spec State → Entity W Spec State
  change (put_spec x) s = record s { spec = x }
  change (put_state x) s = record s { state = x }
  change (put_label k v) s = patched ((k, v) ∷ []) s

  unfoldable pub change_all : List (Mutation Spec State) → Entity W Spec State → Entity W Spec State
  unfolding change
  change_all [] s = s
  change_all (u ∷ us) s = change_all us (change u s)

  -- What a handler sees: the entity is ready whenever one runs.
  abbrev pub seen : Entity W Spec State → View Spec State
  seen s = record {
    spec = s.spec;
    state = s.state;
    phase = Phase.ready;
    labels = put_all [] s.labels;
  }

  -- An outcome is remembered, at the cost of the oldest one where there are too many.
  abbrev pub remember : RequestId → Result Payload → Entity W Spec State → Entity W Spec State
  remember id r s = record s {
    memory =
        keep_newest completed_ops_cap (insert id (op_result (value_of r) (error_of r)) s.memory);
  }

module _ {W Spec State : Type 0} (patches : Codec (Dict Str)) (d : Definition W Spec State) where
  -- A declared command: its handler on the entity, its calls, and its outcome.
  unfoldable pub serve_declared :
      CommandImpl W Spec State → CommandEnvelope → Entity W Spec State → Entity W Spec State
  unfolding change_all
  serve_declared cmd c s =
      let (w, us, r) = cmd.exec s.world (seen s) c.payload in
      remember c.request_id r (record (change_all us s) { world = w })

  unfoldable pub serve_labels :
      CommandEnvelope → Result (Dict Str) → Entity W Spec State → Entity W Spec State
  serve_labels c (ok patch) s = remember c.request_id (ok []) (patched patch s)
  serve_labels c (err e) s = remember c.request_id (err e) s

  -- One command.
  unfoldable pub serve : CommandEnvelope → Entity W Spec State → Entity W Spec State
  unfolding serve_declared serve_labels
  serve c s =
      if c.name == set_labels_command_name
      then serve_labels c (patches.unmarshal c.payload) s
      else elim (lookup c.name d.commands) [
        | none ↦ remember c.request_id (err (unknown_error c)) s
        | some cmd ↦ serve_declared cmd c s
      ]

  -- A tick and the finalizer.
  unfoldable pub serve_tick : Entity W Spec State → Entity W Spec State
  unfolding change_all
  serve_tick s = elim d.reconcile [
    | none ↦ s
    | some f ↦ let (w, us, e) = f s.world (seen s) in record (change_all us s) { world = w }
  ]

  unfoldable pub serve_finalizer : Entity W Spec State → Entity W Spec State
  serve_finalizer s = elim d.finalize [
    | none ↦ s
    | some f ↦ let (w, st, e) = f s.world s.state in record s { world = w; state = st }
  ]

  -- What an event of a run does to the entity; arrivals and answers do nothing.
  unfoldable pub replay_event : Event → Entity W Spec State → Entity W Spec State
  unfolding serve serve_tick serve_finalizer
  replay_event (executed c) s = serve c s
  replay_event (rejected c) s = remember c.request_id (err (rejected_error c)) s
  replay_event (reconciled e) s = serve_tick s
  replay_event (finalized e) s = serve_finalizer s
  replay_event _ s = s

  unfoldable pub replay : List Event → Entity W Spec State → Entity W Spec State
  unfolding replay_event
  replay [] s = s
  replay (e ∷ h) s = replay h (replay_event e s)

  -- Every answer is the outcome that the entity remembers for its request when it is given.
  abbrev pub AnswersTruly : List Event → Entity W Spec State → Type 0
  AnswersTruly [] s = Unit {0}
  AnswersTruly (answered id r ∷ h) s =
      ((o : OpResult) × (lookup id s.memory ≡ some o) × (r ≡ update_result o)) × AnswersTruly h s
  AnswersTruly (e ∷ h) s = AnswersTruly h (replay_event e s)

  -- Where the sequence starts: the entity as it came, or as its creation left it.
  abbrev pub Starts : W → Envelope Spec State → Entity W Spec State → Type 0
  Starts w env s =
      (s ≡ of_parts w env)
      ⊎ ((f : W → Bool → Spec → W × State × Check) × (cancelled : Bool) × (d.init ≡ some f)
          × (s ≡ record (of_parts w env) {
            world = (f w cancelled env.spec).0;
            state = (f w cancelled env.spec).1;
          }))

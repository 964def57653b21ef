-- ===== src/Entdefine/Serial/Invariant.antt =====
-- What holds of every machine of a run of pkg/entdefine/loop.go, in terms of the sequential entity.
use temporal_entity.Base.{
  ◌≡◌, ◌∙◌, ap, sym, ◌⊎◌, inl, inr, Bool, true, false, List, ◌++◌, Str, Dict, ◌==◌,
}
use temporal_entity.Entity.State.{Phase, set_labels_command_name}
use temporal_entity.Entity.Command.{Codec}
use temporal_entity.Wire.{Envelope, CommandEnvelope}
use temporal_entity.Wire.Cache.{HasCache}
use temporal_entity.Entdefine.Definition.{Definition}
use temporal_entity.Entdefine.Loop.{Machine, Pc, Event, at_command, at_init, at_cancelled_init}
use temporal_entity.Entdefine.Effects.{Effect}
use temporal_entity.Entdefine.Lifecycle.{IsConsistent}
use temporal_entity.Entdefine.Serial.{Entity, of_parts, entity_of, replay, AnswersTruly, Starts}
use temporal_entity.Entdefine.Serial.Answers.{
  IsQuiet, IsQuiet-append, replay-append, replay-quiet, AnswersTruly-append,
}

module _ {Spec State : Type 0} where
  abbrev pub IsStarting : Pc Spec State → Type 0
  IsStarting pc = (pc ≡ at_init) ⊎ (pc ≡ at_cancelled_init)

  -- Past the creation; not inside a command.
  abbrev pub is_past : Pc Spec State → Bool
  is_past at_init = false
  is_past at_cancelled_init = false
  is_past _ = true

  abbrev pub is_free : Pc Spec State → Bool
  is_free (at_command c) = false
  is_free _ = true

  starting_is_not_past : (pc : Pc Spec State) → IsStarting pc → is_past pc ≡ true → ⊥
  starting_is_not_past pc (inl p) past = cc (sym (ap is_past p) ∙ past)
  starting_is_not_past pc (inr p) past = cc (sym (ap is_past p) ∙ past)

module _ {W Spec State : Type 0} (patches : Codec (Dict Str)) (workflow_id : Str)
    (d : Definition W Spec State) (w0 : W) (env0 : Envelope Spec State) where
  abbrev pub origin : Entity W Spec State
  origin = of_parts w0 env0

  -- The creation has not returned: the entity is as it came.
  abbrev pub Waits : Machine W Spec State → Type 0
  Waits m = (entity_of m ≡ origin) × IsQuiet m.history × AnswersTruly patches d m.history origin

  -- The entity is what its history makes of a start, and every answer was true when given.
  abbrev pub Runs : Machine W Spec State → Type 0
  Runs m =
      (s : Entity W Spec State) × Starts patches d w0 env0 s
      × (entity_of m ≡ replay patches d m.history s)
      × AnswersTruly patches d m.history s

  abbrev pub IsSerial : Machine W Spec State → Type 0
  IsSerial m = (IsStarting m.pc × Waits m) ⊎ ((is_past m.pc ≡ true) × Runs m)

  -- A command that is being executed is not the built-in one.
  abbrev pub IsDispatched : Machine W Spec State → Type 0
  IsDispatched m =
      (c : CommandEnvelope) → m.pc ≡ at_command c → (c.name == set_labels_command_name) ≡ false

  abbrev pub IsSound : Machine W Spec State → Type 0
  IsSound m = IsConsistent m × HasCache m.env × IsDispatched m × IsSerial m

  -- Past the creation.
  pub Runs-at :
      (m : Machine W Spec State) (place : Pc Spec State)
      → m.pc ≡ place
      → is_past place ≡ true
      → IsSerial m
      → Runs m
  Runs-at m place h past (inl (p, q)) = absurd (starting_is_not_past m.pc p (ap is_past h ∙ past))
  Runs-at m place h past (inr (_, r)) = r

  -- In the creation.
  pub Waits-at : (m : Machine W Spec State) → IsStarting m.pc → IsSerial m → Waits m
  Waits-at m p (inl (_, q)) = q
  Waits-at m p (inr (past, r)) = absurd (starting_is_not_past m.pc p past)

  -- A piece of the loop that does what its events say.
  pub IsSerial-after :
      (m n : Machine W Spec State) (events : List Event) (place : Pc Spec State)
      → n.pc ≡ place
      → is_past place ≡ true
      → n.history ≡ m.history ++ events
      → entity_of n ≡ replay patches d events (entity_of m)
      → AnswersTruly patches d events (entity_of m)
      → Runs m
      → IsSerial n
  IsSerial-after m n events place p past h e a (s, start, same, true_so_far) = inr (
    ap is_past p ∙ past,
    (
      s,
      start,
      e
          ∙ ap (replay patches d events) same
          ∙ sym (replay-append patches d m.history events s)
          ∙ ap (λ l. replay patches d l s) (sym h),
      rw h (AnswersTruly-append patches d m.history events s true_so_far (rw (← same) a)),
    ),
  )

  -- A message that leaves the entity alone, at any place.
  pub IsSerial-message :
      (m n : Machine W Spec State) (events : List Event)
      → n.pc ≡ m.pc
      → n.history ≡ m.history ++ events
      → entity_of n ≡ entity_of m
      → IsQuiet events
      → AnswersTruly patches d events (entity_of m)
      → IsSerial m
      → IsSerial n
  IsSerial-message m n events p h e q a (inr (past, r)) =
      IsSerial-after m n events m.pc p past h
        (e ∙ sym (replay-quiet patches d events (entity_of m) q)) a r
  IsSerial-message m n events p h e q a (inl (place, (same, quiet, true_so_far))) = inl (
    rw p place,
    (
      e ∙ same,
      rw h (IsQuiet-append m.history events quiet q),
      rw h (
          AnswersTruly-append patches d m.history events origin true_so_far
            (rw (replay-quiet patches d m.history origin quiet, ← same) a)),
    ),
  )

  pub IsDispatched-at :
      (n : Machine W Spec State) (place : Pc Spec State)
      → n.pc ≡ place
      → is_free place ≡ true
      → IsDispatched n
  IsDispatched-at n place h free c e = cc (sym (ap is_free (sym h ∙ e)) ∙ free)

  -- The same for a piece whose effect on the rest of the machine is known.
  pub after-Effect :
      {m n : Machine W Spec State} {events : List Event} {place : Pc Spec State} {stage : Phase}
      {started : Bool} {queue : List CommandEnvelope}
      → Effect m n events place stage started queue
      → is_past place ≡ true
      → is_free place ≡ true
      → entity_of n ≡ replay patches d events (entity_of m)
      → AnswersTruly patches d events (entity_of m)
      → Runs m
      → IsDispatched n × IsSerial n
  after-Effect {m} {n} {events} {place} e past free same a r = (
    IsDispatched-at n place e.pc free,
    IsSerial-after m n events place e.pc past e.history same a r,
  )

-- ===== src/Entdefine/Serial/Answers.antt =====
-- Sequences of events on the sequential entity: what a longer history does, and what an answer that
-- the cache gives says of it.
use temporal_entity.Base.{
  ◌≡◌, refl, ◌∙◌, ap, sym, true, some, List, [], ◌∷◌, ◌++◌, map, Str, arith, Dict, lookup, has,
  contains, ==_iff,
}
use temporal_entity.Entity.Id.{RequestId}
use temporal_entity.Entity.Command.{Codec}
use temporal_entity.Wire.{Envelope, CommandEnvelope, OpResult}
use temporal_entity.Wire.Cache.{HasCache, remembered, entries}
use temporal_entity.Entdefine.Definition.{Definition}
use temporal_entity.Entdefine.Loop.{Event, enqueued, rejected, answered}
use temporal_entity.Entdefine.Serial.{Entity, replay_event, replay, AnswersTruly}

lookup-entries_listed :
    (k : RequestId) (order : List RequestId) (m : Dict OpResult) (o : OpResult)
    → contains k order ≡ true
    → lookup k m ≡ some o
    → lookup k (entries order m) ≡ some o
unfolding entries contains lookup
lookup-entries_listed k [] m o c h = cc c
lookup-entries_listed k (j ∷ order) m o c h =
    ground (arith, lookup-entries_listed k order m o, ==_iff j k)

-- What the cache says, its list of outcomes says.
pub lookup-remembered :
    {Spec State : Type 0} (k : RequestId) (env : Envelope Spec State) (o : OpResult)
    → HasCache env
    → lookup k env.completed ≡ some o
    → lookup k (remembered env) ≡ some o
lookup-remembered k env o c h =
    lookup-entries_listed k env.completed_order env.completed o
      (sym (c.indexed.same k) ∙ (rw (h, has) refl)) h

-- Only arrivals and answers: nothing that the main loop did.
abbrev pub IsQuiet : List Event → Type 0
IsQuiet [] = Unit {0}
IsQuiet (enqueued c ∷ h) = IsQuiet h
IsQuiet (answered id r ∷ h) = IsQuiet h
IsQuiet (_ ∷ h) = ⊥

pub IsQuiet-append : (h k : List Event) → IsQuiet h → IsQuiet k → IsQuiet (h ++ k)
IsQuiet-append [] k p q = q
IsQuiet-append (enqueued c ∷ h) k p q = IsQuiet-append h k p q
IsQuiet-append (answered id r ∷ h) k p q = IsQuiet-append h k p q
IsQuiet-append (Event.executed c ∷ h) k p q = absurd p
IsQuiet-append (rejected c ∷ h) k p q = absurd p
IsQuiet-append (Event.reconciled e ∷ h) k p q = absurd p
IsQuiet-append (Event.finalized e ∷ h) k p q = absurd p

module _ {W Spec State : Type 0} (patches : Codec (Dict Str)) (d : Definition W Spec State) where
  pub replay-append :
      (h k : List Event) (s : Entity W Spec State)
      → replay patches d (h ++ k) s ≡ replay patches d k (replay patches d h s)
  unfolding replay
  replay-append [] k s = refl
  replay-append (e ∷ h) k s = replay-append h k (replay_event patches d e s)

  pub replay-quiet :
      (h : List Event) (s : Entity W Spec State) → IsQuiet h → replay patches d h s ≡ s
  unfolding replay replay_event
  replay-quiet [] s q = refl
  replay-quiet (enqueued c ∷ h) s q = replay-quiet h s q
  replay-quiet (answered id r ∷ h) s q = replay-quiet h s q
  replay-quiet (Event.executed c ∷ h) s q = absurd q
  replay-quiet (rejected c ∷ h) s q = absurd q
  replay-quiet (Event.reconciled e ∷ h) s q = absurd q
  replay-quiet (Event.finalized e ∷ h) s q = absurd q

  -- The answers of a longer history, one piece after the other.
  pub AnswersTruly-append :
      (h k : List Event) (s : Entity W Spec State)
      → AnswersTruly patches d h s
      → AnswersTruly patches d k (replay patches d h s)
      → AnswersTruly patches d (h ++ k) s
  unfolding replay
  AnswersTruly-append [] k s p q = q
  AnswersTruly-append (answered id r ∷ h) k s p q =
      (p.0, AnswersTruly-append h k s p.1 (unfold replay_event in q))
  AnswersTruly-append (enqueued c ∷ h) k s p q = AnswersTruly-append h k _ p q
  AnswersTruly-append (Event.executed c ∷ h) k s p q = AnswersTruly-append h k _ p q
  AnswersTruly-append (rejected c ∷ h) k s p q = AnswersTruly-append h k _ p q
  AnswersTruly-append (Event.reconciled e ∷ h) k s p q = AnswersTruly-append h k _ p q
  AnswersTruly-append (Event.finalized e ∷ h) k s p q = AnswersTruly-append h k _ p q

  -- A history in which the loop did nothing says the same of every entity with that memory.
  pub AnswersTruly-quiet :
      (h : List Event) (s t : Entity W Spec State)
      → IsQuiet h
      → s.memory ≡ t.memory
      → AnswersTruly patches d h s
      → AnswersTruly patches d h t
  unfolding replay_event
  AnswersTruly-quiet [] s t q e p = tt
  AnswersTruly-quiet (answered id r ∷ h) s t q e p =
      ((p.0.0, ap (lookup id) (sym e) ∙ p.0.1, p.0.2), AnswersTruly-quiet h s t q e p.1)
  AnswersTruly-quiet (enqueued c ∷ h) s t q e p = AnswersTruly-quiet h s t q e p
  AnswersTruly-quiet (Event.executed c ∷ h) s t q e p = absurd q
  AnswersTruly-quiet (rejected c ∷ h) s t q e p = absurd q
  AnswersTruly-quiet (Event.reconciled f ∷ h) s t q e p = absurd q
  AnswersTruly-quiet (Event.finalized f ∷ h) s t q e p = absurd q

  pub AnswersTruly-rejected :
      (cs : List CommandEnvelope) (s : Entity W Spec State)
      → AnswersTruly patches d (map rejected cs) s
  AnswersTruly-rejected [] s = tt
  AnswersTruly-rejected (c ∷ cs) s = AnswersTruly-rejected cs _

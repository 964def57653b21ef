-- ===== src/Entdefine/Rejected.antt =====
-- The commands that wait in the queue when a deletion comes.
use temporal_entity.Base.{
  ℕ, suc, ◌+◌, ◌≤◌, ◌≡◌, refl, false, none, some, List, [], ◌∷◌, length, arith, ==_iff, contains,
  IsDistinct, lookup, All, err, Str, Dict,
}
use temporal_entity.Entity.Id.{RequestId}
use temporal_entity.Entity.State.{Phase}
use temporal_entity.Entity.Command.{Codec}
use temporal_entity.Wire.{
  Envelope, CommandEnvelope, OpResult, op_result, record_completed, completed_ops_cap,
}
use temporal_entity.Wire.Cache.{HasCache}
use temporal_entity.Wire.Cache.Lookup.{lookup-record_completed, record_completed-HasCache}
use temporal_entity.Wire.Recent.{IsRecent, record_completed-IsRecent, IsRecent-record_completed}
use temporal_entity.Entdefine.Definition.{Definition}
use temporal_entity.Entdefine.Loop.{
  Machine, begin_delete, reject_all, rejected_error, update_result, with_phase,
}
use temporal_entity.Entdefine.Frame.{env-upsert}

abbrev pub ids : List CommandEnvelope → List RequestId
ids [] = []
ids (c ∷ cs) = c.request_id ∷ ids cs

abbrev outcome : CommandEnvelope → OpResult
outcome c = op_result [] (some (rejected_error c))

module _ {Spec State : Type 0} where
  -- No outcome is recorded for any of the commands.
  abbrev pub AreNew : List CommandEnvelope → Envelope Spec State → Type 0
  AreNew cs env = All (λ c. lookup c.request_id env.completed ≡ none) cs

  abbrev reject : CommandEnvelope → Envelope Spec State → Envelope Spec State
  reject c env = record_completed c.request_id [] (some (rejected_error c)) env

  AreNew-reject :
      (c : CommandEnvelope) (cs : List CommandEnvelope) (env : Envelope Spec State)
      → HasCache env
      → contains c.request_id (ids cs) ≡ false
      → AreNew cs env
      → AreNew cs (reject c env)
  unfolding contains
  AreNew-reject c [] env h d f = tt
  AreNew-reject c (b ∷ cs) env h d f = (
    ground (
      arith,
      lookup-record_completed c.request_id b.request_id [] (some (rejected_error c)) env h,
      f.0,
      d,
      ==_iff c.request_id b.request_id,
      ==_iff b.request_id c.request_id,
    ),
    AreNew-reject c cs env h (ground (arith, d)) f.1,
  )

  reject-HasCache :
      (c : CommandEnvelope) (env : Envelope Spec State) → HasCache env → HasCache (reject c env)
  reject-HasCache c env h =
      record_completed-HasCache c.request_id [] (some (rejected_error c)) env h

  -- A recent outcome outlives the rejection of a few commands.
  stays :
      (n : ℕ) (k : RequestId) (r : OpResult) (cs : List CommandEnvelope) (env : Envelope Spec State)
      → HasCache env
      → AreNew cs env
      → IsDistinct (ids cs)
      → n + length cs ≤ 99
      → IsRecent n k r env
      → lookup k (reject_all cs env).completed ≡ some r
  unfolding reject_all
  stays n k r [] env h f d small i = i.there
  stays n k r (c ∷ cs) env h f d small i =
      stays (suc n) k r cs (reject c env) (reject-HasCache c env h)
        (AreNew-reject c cs env h d.0 f.1) d.1 (omega (arith, small))
        (IsRecent-record_completed n k c.request_id r [] (some (rejected_error c)) env h f.0
          (omega (arith, small)) i)

  reject_each :
      (cs : List CommandEnvelope) (env : Envelope Spec State)
      → HasCache env
      → AreNew cs env
      → IsDistinct (ids cs)
      → length cs ≤ completed_ops_cap
      → All (λ c. lookup c.request_id (reject_all cs env).completed ≡ some (outcome c)) cs
  unfolding reject_all
  reject_each [] env h f d small = tt
  reject_each (c ∷ cs) env h f d small = (
    stays 0 c.request_id (outcome c) cs (reject c env) (reject-HasCache c env h)
        (AreNew-reject c cs env h d.0 f.1) d.1 (omega (arith, small))
        (record_completed-IsRecent c.request_id [] (some (rejected_error c)) env h f.0),
    reject_each cs (reject c env) (reject-HasCache c env h) (AreNew-reject c cs env h d.0 f.1) d.1
        (omega (arith, small)),
  )

-- What the handler of a command that waits for it will answer.
abbrev pub WillFail : Dict OpResult → CommandEnvelope → Type 0
WillFail completed c =
    (r : OpResult) × (lookup c.request_id completed ≡ some r)
    × (update_result r ≡ err (rejected_error c))

will_fail :
    (completed : Dict OpResult) (cs : List CommandEnvelope)
    → All (λ c. lookup c.request_id completed ≡ some (outcome c)) cs
    → All (WillFail completed) cs
unfolding update_result
will_fail completed [] h = tt
will_fail completed (c ∷ cs) h = ((outcome c, h.0, refl), will_fail completed cs h.1)

-- If the commands that wait in the queue are at most 100, have distinct request ids
-- and no recorded outcome, and the cache is well formed, then after the deletion path has rejected
-- them each has a recorded outcome, of which its handler makes the error that the entity was deleted.
pub pending_fail :
    {W Spec State : Type 0} (patches : Codec (Dict Str)) (d : Definition W Spec State)
    (m : Machine W Spec State)
    → HasCache m.env
    → AreNew m.env.pending m.env
    → IsDistinct (ids m.env.pending)
    → length m.env.pending ≤ 100
    → All (WillFail (begin_delete patches d m).env.completed) m.env.pending
unfolding begin_delete
pending_fail patches d m h f u small = rw (env-upsert d (with_phase Phase.deleting m)) (
    will_fail _ m.env.pending
      (reject_each m.env.pending (record m.env { phase = Phase.deleting }) h f u small))

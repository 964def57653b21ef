-- ===== src/Wire/Cache/Refined.antt =====
-- internal/wire/wire.go, `RecordCompleted`: the dedup cache against a bounded map in order of insertion.
use temporal_entity.Base.{◌≡◌, ◌∙◌, ap, Option, Error, Dict, lookup, insert}
use temporal_entity.Entity.Id.{RequestId}
use temporal_entity.Entity.Command.{Payload}
use temporal_entity.Wire.{Envelope, OpResult, op_result, record_completed}
use temporal_entity.Wire.Cache.{HasCache, remembered, keep_newest}
use temporal_entity.Wire.Cache.Entries.{lookup-entries_indexed, remembered-record_completed}
use temporal_entity.Wire.Cache.Lookup.{record_completed-HasCache}

module _ {Spec State : Type 0} where
  -- The outcomes that an envelope remembers, after one more: the new outcome takes the place of the old
  -- one of its id, or comes last, and the newest 100 stay.
  abbrev pub remembered_with :
      RequestId → Payload → Option Error → Envelope Spec State → Dict OpResult
  remembered_with id res e env = keep_newest 100 (insert id (op_result res e) (remembered env))

  -- On a well-formed cache, `RecordCompleted` implements a bounded map in order of insertion: it updates
  -- the outcomes that the cache remembers, in place or at the end, and keeps the newest 100; every
  -- request id reads in `Completed` what it reads in that map, so that an evicted id reads nothing; and
  -- the cache is well formed again, its ids distinct, those of `Completed`, and at most 100.
  pub record_completed-refines :
      (id : RequestId) (res : Payload) (e : Option Error) (env : Envelope Spec State)
      → HasCache env
      → let n = record_completed id res e env in
        (remembered n ≡ remembered_with id res e env)
        × ((k : RequestId) → lookup k n.completed ≡ lookup k (remembered_with id res e env))
        × HasCache n
  record_completed-refines id res e env c =
      let n = record_completed id res e env in
      let kept = record_completed-HasCache id res e env c in
      let same = remembered-record_completed id res e env c in
      (
        same,
        (λ k.
            lookup-entries_indexed k n.completed_order n.completed kept.indexed
            ∙ ap (lookup k) same),
        kept,
      )

-- ===== src/Wire/Cache/Lookup.antt =====
-- internal/wire/wire.go, `RecordCompleted`: the form of the dedup cache, and what it knows.
use native.Mathlib.Decide.{dec_lt}
use temporal_entity.Base.{
  ℕ, suc, ◌≡◌, Option, none, some, List, [], ◌∷◌, ◌++◌, arith, ◌==◌, ==_iff, contains,
  contains-append, Dict, lookup, insert, erase, lookup-insert, lookup-erase, length, length-append,
  if◌then◌else◌, Error, Bool-cases, inl, inr,
}
use temporal_entity.Entity.Id.{RequestId}
use temporal_entity.Entity.Command.{Payload}
use temporal_entity.Wire.{
  OpResult, Envelope, op_result, evict, record_in, record_completed, completed_ops_cap,
}
use temporal_entity.Wire.Cache.{IsIndexed, IsCache, touched, is_evicted, HasCache}
use temporal_entity.Wire.Cache.Entries.{evict_fits, evict_one, evict_more, touched-IsDistinct}

touched-IsIndexed :
    (id : RequestId) (r : OpResult) (order : List RequestId) (m : Dict OpResult)
    → IsIndexed order m
    → IsIndexed (touched id order) (insert id r m)
unfolding contains
touched-IsIndexed id r order m c = record {
  distinct = touched-IsDistinct id order c.distinct;
  same = λ k. ground (
    arith,
    c.same k,
    c.same id,
    lookup-insert id k r m,
    contains-append k order (id ∷ []),
    ==_iff id k,
  );
}

evict-IsCache :
    (bound : ℕ) (order : List RequestId) (m : Dict OpResult)
    → IsIndexed order m
    → IsCache bound (evict bound order m).0 (evict bound order m).1
evict-IsCache bound [] m c = unfold evict in record { indexed = c; bounded = omega arith }
evict-IsCache bound (x ∷ order) m c = elim (dec_lt bound (length (x ∷ order))) [
  | yes over ↦ rw (evict_more bound x order m over) (
      evict-IsCache bound order (erase x m) (record {
        distinct = c.distinct.1;
        same = λ k.
            unfold contains in
            ground (arith, c.same k, lookup-erase x k m, ==_iff x k, c.distinct.0);
      }))
  | no fits ↦
      rw (evict_fits bound (x ∷ order) m (omega arith))
        (record { indexed = c; bounded = omega arith })
]

record_in-IsCache :
    (bound : ℕ) (id : RequestId) (r : OpResult) (order : List RequestId) (m : Dict OpResult)
    → IsIndexed order m
    → IsCache bound (record_in bound id r order m).0 (record_in bound id r order m).1
unfolding record_in
record_in-IsCache bound id r order m c =
    rw c.same
      (evict-IsCache bound (touched id order) (insert id r m) (touched-IsIndexed id r order m c))

record_in-lookup :
    (bound : ℕ) (id k : RequestId) (r : OpResult) (order : List RequestId) (m : Dict OpResult)
    → IsCache (suc bound) order m
    → lookup k (record_in (suc bound) id r order m).1
      ≡ (if id == k then some r else if is_evicted (suc bound) id k order then none else lookup k m)
unfolding record_in
record_in-lookup bound id k r [] m c = rw (c.indexed.same id) (
    unfold contains in
    rw (evict_fits (suc bound) (id ∷ []) (insert id r m) (omega arith))
      (ground (arith, lookup-insert id k r m)))
record_in-lookup bound id k r (x ∷ order) m c = elim (Bool-cases (contains id (x ∷ order))) [
  | inl old ↦
      rw (c.indexed.same id, old, evict_fits (suc bound) (x ∷ order) (insert id r m) c.bounded)
        (ground (arith, lookup-insert id k r m))
  | inr new ↦
      rw (c.indexed.same id, new)
        (elim (dec_lt (length order) bound) [
          | yes room ↦
              rw
                (evict_fits (suc bound) (x ∷ order ++ id ∷ []) (insert id r m)
                  (omega (arith, length-append {0} order (id ∷ []))))
                (ground (arith, lookup-insert id k r m))
          | no full ↦
              rw
                (evict_one (suc bound) x (order ++ id ∷ []) (insert id r m)
                  (omega (arith, c.bounded, length-append {0} order (id ∷ []))))
                (unfold contains in
                  ground (
                    arith,
                    c.bounded,
                    lookup-erase x k (insert id r m),
                    lookup-insert id k r m,
                    ==_iff x k,
                    ==_iff id k,
                    ==_iff x id,
                    new,
                  ))
        ])
]

module _ {Spec State : Type 0} where
  -- `RecordCompleted` keeps the cache well formed: its ids are distinct, they are those of the map,
  -- and they are at most `completed_ops_cap`.
  pub record_completed-HasCache :
      (id : RequestId) (res : Payload) (e : Option Error) (env : Envelope Spec State)
      → HasCache env
      → HasCache (record_completed id res e env)
  unfolding record_completed
  record_completed-HasCache id res e env c =
      record_in-IsCache completed_ops_cap id (op_result res e) env.completed_order env.completed
        c.indexed

  -- After `RecordCompleted` on a well-formed cache, the id has the new outcome, the oldest id of a
  -- full cache that did not know the id is gone, and any other id has the outcome that it had.
  pub lookup-record_completed :
      (id k : RequestId) (res : Payload) (e : Option Error) (env : Envelope Spec State)
      → HasCache env
      → lookup k (record_completed id res e env).completed ≡ (
          if id == k
          then some (op_result res e)
          else if is_evicted completed_ops_cap id k env.completed_order
          then none
          else lookup k env.completed)
  unfolding record_completed
  lookup-record_completed id k res e env c =
      record_in-lookup 99 id k (op_result res e) env.completed_order env.completed c

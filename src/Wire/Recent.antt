-- ===== src/Wire/Recent.antt =====
-- `RecordCompleted` on new ids: how long an outcome stays in the cache.
use mathlib.Core.Path.{subst}
use native.Mathlib.Decide.{dec_lt}
use temporal_entity.Base.{
  ℕ, suc, ◌≤◌, ◌<◌, ◌≡◌, refl, ◌∙◌, ap, sym, ◌⊎◌, inl, inr, true, false, Option, none, some, List,
  [], ◌∷◌, ◌++◌, length, length-append, arith, ◌==◌, ==_iff, ==_refl, contains, lookup, insert, has,
  not_has, Error, if◌then◌else◌, Dict, Bool-cases,
}
use temporal_entity.Entity.Id.{RequestId}
use temporal_entity.Entity.Command.{Payload}
use temporal_entity.Wire.{OpResult, Envelope, op_result, evict, record_completed, completed_ops_cap}
use temporal_entity.Wire.Cache.{HasCache, is_evicted}
use temporal_entity.Wire.Cache.Entries.{evict_fits, evict_one}
use temporal_entity.Wire.Cache.Lookup.{lookup-record_completed}

-- How many ids are newer than `k`.
abbrev pub behind : RequestId → List RequestId → ℕ
behind k [] = 0
behind k (x ∷ order) = if x == k then length order else behind k order

behind-append :
    (k id : RequestId) (order : List RequestId)
    → contains k order ≡ true
    → behind k (order ++ id ∷ []) ≡ suc (behind k order)
unfolding contains
behind-append k id [] h = cc h
behind-append k id (x ∷ order) h =
    ground (arith, behind-append k id order, length-append {0} order (id ∷ []))

behind-new :
    (k : RequestId) (order : List RequestId)
    → contains k order ≡ false
    → behind k (order ++ k ∷ []) ≡ 0
unfolding contains
behind-new k [] h = ground (arith, ==_refl k)
behind-new k (x ∷ order) h = ground (arith, behind-new k order)

-- The order of eviction after a new id: it is last, and the oldest id went if the cache was full.
abbrev Ordered : RequestId → List RequestId → List RequestId → Type 0
Ordered id order after =
    (after ≡ order ++ id ∷ [])
    ⊎ ((x : RequestId) × (rest : List RequestId) × (order ≡ x ∷ rest)
        × (after ≡ rest ++ id ∷ [])
        × (length order ≡ completed_ops_cap))

evict-Ordered :
    (id : RequestId) (order : List RequestId) (m : Dict OpResult)
    → length order ≤ completed_ops_cap
    → Ordered id order (evict completed_ops_cap (order ++ id ∷ []) m).0
evict-Ordered id [] m h = inl (
    ap (λ (r : List RequestId × Dict OpResult). r.0)
      (evict_fits completed_ops_cap (id ∷ []) m (omega arith)))
evict-Ordered id (x ∷ order) m h = elim (dec_lt (length order) 99) [
  | yes room ↦ inl (
      ap (λ (r : List RequestId × Dict OpResult). r.0)
        (evict_fits completed_ops_cap (x ∷ order ++ id ∷ []) m
          (omega (arith, length-append {0} order (id ∷ [])))))
  | no full ↦ inr (
    x,
    order,
    refl,
    ap (λ (r : List RequestId × Dict OpResult). r.0)
        (evict_one completed_ops_cap x (order ++ id ∷ []) m
          (omega (arith, length-append {0} order (id ∷ [])))),
    omega arith,
  )
]

not_in_rest :
    (id x : RequestId) (rest : List RequestId)
    → contains id (x ∷ rest) ≡ false
    → contains id rest ≡ false
unfolding contains
not_in_rest id x rest n = ground arith

newest_in :
    (id : RequestId) (order after : List RequestId)
    → contains id order ≡ false
    → Ordered id order after
    → behind id after ≤ 0
newest_in id order after new (inl h) = rw h (omega (arith, behind-new id order new))
newest_in id order after new (inr (x, rest, split, h, full)) =
    rw h (
      omega
        (arith, behind-new id rest (not_in_rest id x rest (ap (contains id) (sym split) ∙ new))))

not_evicted :
    (n : ℕ) (id k : RequestId) (order : List RequestId)
    → behind k order ≤ n
    → n < 99
    → is_evicted completed_ops_cap id k order ≡ false
not_evicted n id k [] h small = refl
not_evicted n id k (x ∷ order) h small = ground arith

-- In a full cache, an id that is newer than the oldest is in the rest.
in_rest :
    (n : ℕ) (k x : RequestId) (rest : List RequestId)
    → contains k (x ∷ rest) ≡ true
    → behind k (x ∷ rest) ≤ n
    → n < 99
    → length (x ∷ rest) ≡ completed_ops_cap
    → (contains k rest ≡ true) × (behind k rest ≤ n)
unfolding contains
in_rest n k x rest h b small full = ground arith

newer_in :
    (n : ℕ) (k id : RequestId) (order after : List RequestId)
    → contains k order ≡ true
    → behind k order ≤ n
    → n < 99
    → Ordered id order after
    → behind k after ≤ suc n
newer_in n k id order after h b small (inl e) = rw e (omega (arith, behind-append k id order h, b))
newer_in n k id order after h b small (inr (x, rest, split, e, full)) =
    let p =
      in_rest n k x rest (ap (contains k) (sym split) ∙ h) (rw split at b) small
        (ap length (sym split) ∙ full) in
    rw e (omega (arith, behind-append k id rest p.0, p.1))

module _ {Spec State : Type 0} where
  record_completed-Ordered :
      (id : RequestId) (res : Payload) (e : Option Error) (env : Envelope Spec State)
      → HasCache env
      → lookup id env.completed ≡ none
      → Ordered id env.completed_order (record_completed id res e env).completed_order
  unfolding record_completed
  record_completed-Ordered id res e env c fresh =
      subst
        (λ b.
          Ordered id env.completed_order
            (evict completed_ops_cap
              (if b then env.completed_order else env.completed_order ++ id ∷ [])
              (insert id (op_result res e) env.completed)).0)
        (sym (not_has id env.completed fresh))
        (evict-Ordered id env.completed_order (insert id (op_result res e) env.completed) c.bounded)

  -- The outcome of `k` is in the cache, with at most `n` newer ones.
  pub record IsRecent (n : ℕ) (k : RequestId) (r : OpResult) (env : Envelope Spec State)
      : Type 0 where
    pub there : lookup k env.completed ≡ some r
    pub newer : behind k env.completed_order ≤ n

  listed :
      (k : RequestId) (r : OpResult) (env : Envelope Spec State)
      → HasCache env
      → lookup k env.completed ≡ some r
      → contains k env.completed_order ≡ true
  listed k r env c h = sym (c.indexed.same k) ∙ (rw (h, has) refl)

  -- A new outcome is the newest.
  pub record_completed-IsRecent :
      (id : RequestId) (res : Payload) (e : Option Error) (env : Envelope Spec State)
      → HasCache env
      → lookup id env.completed ≡ none
      → IsRecent 0 id (op_result res e) (record_completed id res e env)
  record_completed-IsRecent id res e env c fresh = record {
    there = lookup-record_completed id id res e env c ∙ (rw (==_refl id) refl);
    newer =
        newest_in id env.completed_order (record_completed id res e env).completed_order
          (sym (c.indexed.same id) ∙ not_has id env.completed fresh)
          (record_completed-Ordered id res e env c fresh);
  }

  -- An outcome with fewer than 99 newer ones stays when another is recorded.
  pub IsRecent-record_completed :
      (n : ℕ) (k id : RequestId) (r : OpResult) (res : Payload) (e : Option Error)
      (env : Envelope Spec State)
      → HasCache env
      → lookup id env.completed ≡ none
      → n < 99
      → IsRecent n k r env
      → IsRecent (suc n) k r (record_completed id res e env)
  IsRecent-record_completed n k id r res e env c fresh small h = record {
    there =
        lookup-record_completed id k res e env c
        ∙ (rw (other, not_evicted n id k env.completed_order h.newer small) h.there);
    newer =
        newer_in n k id env.completed_order (record_completed id res e env).completed_order
          (listed k r env c h.there) h.newer small (record_completed-Ordered id res e env c fresh);
  }
    where
      other : (id == k) ≡ false
      other = elim (Bool-cases (id == k)) [
        | inr e ↦ e
        | inl e ↦ ground (arith, h.there, fresh, ==_iff id k)
      ]

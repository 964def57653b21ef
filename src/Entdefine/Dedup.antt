-- ===== src/Entdefine/Dedup.antt =====
-- The dedup cache over a run.
use temporal_entity.Base.{
  ◌≡◌, if_keeps, Option, none, some, List, [], ◌∷◌, Str, Dict, lookup, Result, ok, err, Check,
  Option-cases, inl, inr,
}
use temporal_entity.Entity.Command.{Codec, CommandName}
use temporal_entity.Entity.State.{Phase}
use temporal_entity.Wire.{Envelope, CommandEnvelope, UpdateArgs, record_completed, merge_labels}
use temporal_entity.Wire.Cache.{HasCache}
use temporal_entity.Wire.Cache.Lookup.{record_completed-HasCache}
use temporal_entity.Entdefine.Context.{view, mutate_all}
use temporal_entity.Entdefine.Definition.{Definition, CommandImpl}
use temporal_entity.Entdefine.Attributes.{Attributes}
use temporal_entity.Entdefine.Induction.{Kept}
use temporal_entity.Entdefine.Induction.Steps.{reach_keeps}
use temporal_entity.Entdefine.Loop.{
  Machine, Reach, reject_all, rejected_error, unknown_error, upsert, with_phase, ctx, value_of,
  error_of, begin_run, begin_delete, patch_labels, run_set_labels, run_unknown, with_pending,
  finish_command, finish_drain, finish_finalize, finish_reconcile, settle_init, accept_update,
  receive_delete,
}
use temporal_entity.Entdefine.Frame.{
  mutate_all-SameChassis, merge_labels-SameChassis, env-upsert, env-mirror_labels,
}

module _ {Spec State : Type 0} where
  pub HasCache-of_same :
      (e f : Envelope Spec State)
      → e.completed ≡ f.completed
      → e.completed_order ≡ f.completed_order
      → HasCache e
      → HasCache f
  HasCache-of_same e f p q h = rw (← p, ← q) h

  reject_all-HasCache :
      (cs : List CommandEnvelope) (env : Envelope Spec State)
      → HasCache env
      → HasCache (reject_all cs env)
  unfolding reject_all
  reject_all-HasCache [] env h = h
  reject_all-HasCache (c ∷ cs) env h =
      reject_all-HasCache cs (record_completed c.request_id [] (some (rejected_error c)) env)
        (record_completed-HasCache c.request_id [] (some (rejected_error c)) env h)

module _ {W Spec State : Type 0} (patches : Codec (Dict Str)) (d : Definition W Spec State) where
  finish_command-HasCache :
      (cmd : CommandImpl W Spec State) (c : CommandEnvelope) (m : Machine W Spec State)
      → HasCache m.env
      → HasCache (finish_command patches d cmd c m).env
  unfolding finish_command
  finish_command-HasCache cmd c m h =
      let (w, us, res) = cmd.exec m.world (view (ctx m)) c.payload in
      let s = mutate_all-SameChassis us (ctx m) in
      rw env-mirror_labels (
        record_completed-HasCache c.request_id (value_of res) (error_of res)
          (mutate_all us (ctx m)).env
          (HasCache-of_same m.env (mutate_all us (ctx m)).env s.completed s.completed_order h))

  patch_labels-HasCache :
      (c : CommandEnvelope) (patch : Result (Dict Str)) (m : Machine W Spec State)
      → HasCache m.env
      → HasCache (patch_labels patches d c patch m).env
  unfolding patch_labels
  patch_labels-HasCache c (ok patch) m h =
      let s = merge_labels-SameChassis patch m.env in
      record_completed-HasCache c.request_id [] none (merge_labels patch m.env).0
        (HasCache-of_same m.env (merge_labels patch m.env).0 s.completed s.completed_order h)
  patch_labels-HasCache c (err f) m h = record_completed-HasCache c.request_id [] (some f) m.env h

  run_set_labels-HasCache :
      (c : CommandEnvelope) (m : Machine W Spec State)
      → HasCache m.env
      → HasCache (run_set_labels patches d c m).env
  unfolding run_set_labels
  run_set_labels-HasCache c m h =
      rw env-mirror_labels (patch_labels-HasCache c (patches.unmarshal c.payload) m h)

  finish_finalize-HasCache :
      (r : W × State × Check) (m : Machine W Spec State)
      → HasCache m.env
      → HasCache (finish_finalize patches d r m).env
  unfolding finish_finalize
  finish_finalize-HasCache (w, st, none) m h = rw env-upsert h
  finish_finalize-HasCache (w, st, some e) m h = rw env-upsert h

  settle_init-HasCache :
      (r : W × State × Check) (m : Machine W Spec State)
      → HasCache m.env
      → HasCache (settle_init patches d r m).env
  unfolding settle_init
  settle_init-HasCache (w, st, none) m h = rw env-upsert h
  settle_init-HasCache (w, st, some e) m h =
      if_keeps (λ (n : Machine W Spec State). HasCache n.env) m.env.marked_for_deletion _ _ (λ _. h)
        (λ _. rw env-upsert h)

  finish_reconcile-HasCache :
      (m : Machine W Spec State) → HasCache m.env → HasCache (finish_reconcile patches d m).env
  unfolding finish_reconcile
  finish_reconcile-HasCache m h = elim (Option-cases d.reconcile) [
    | inl missing ↦ rw missing h
    | inr (f, found) ↦ rw found (
        let (w, us, e) = f m.world (view (ctx m)) in
        let s = mutate_all-SameChassis us (ctx m) in
        HasCache-of_same m.env (mutate_all us (ctx m)).env s.completed s.completed_order h)
  ]

  finish_drain-HasCache :
      (m : Machine W Spec State) → HasCache m.env → HasCache (finish_drain patches d m).env
  unfolding finish_drain
  finish_drain-HasCache m h = elim (Option-cases d.finalize) [
    | inl missing ↦ rw missing (rw env-upsert h)
    | inr (f, found) ↦ rw found h
  ]

  accept_update-HasCache :
      (name : CommandName) (args : UpdateArgs) (m : Machine W Spec State)
      → HasCache m.env
      → HasCache (accept_update name args m).env
  unfolding accept_update
  accept_update-HasCache name args m h =
      elim (Option-cases (lookup args.request_id m.env.completed)) [
        | inl fresh ↦ rw (fresh, accept_update) h
        | inr (r, found) ↦ rw (found, accept_update) h
      ]

module _ {W Spec State : Type 0} (patches : Codec (Dict Str)) (workflow_id : Str)
    (d : Definition W Spec State) where
  pub HasCache-Kept : Kept patches workflow_id d (λ m. HasCache m.env)
  HasCache-Kept = record {
    begins_delete = λ m _ _ h.
        unfold begin_delete in
        reject_all-HasCache m.env.pending (upsert d (with_phase Phase.deleting m)).env
          (rw env-upsert h);
    labels =
        λ c cs m _ _ _ _ h. run_set_labels-HasCache patches d c (with_pending patches d cs m) h;
    unknowns = λ c cs m _ _ _ _ _ h.
        unfold run_unknown in
        record_completed-HasCache c.request_id [] (some (unknown_error c))
          (with_pending patches d cs m).env h;
    takes = λ c cs m _ _ _ _ h. h;
    rolls = λ m _ _ _ _ h. h;
    idles = λ m _ _ _ h. h;
    commands = λ cmd c m _ _ h. finish_command-HasCache patches d cmd c m h;
    drains = λ m _ _ h. finish_drain-HasCache patches d m h;
    finalizes = λ r m _ _ h. finish_finalize-HasCache patches d r m h;
    continues = λ m _ _ h. h;
    wakes = λ m _ h. h;
    expires = λ m _ h. h;
    reconciles = λ m _ h. finish_reconcile-HasCache patches d m h;
    settles = λ r m _ _ h. settle_init-HasCache patches d r m h;
    cancels = λ m _ _ h. h;
    accepts = λ name args m _ _ h. accept_update-HasCache patches d name args m h;
    answers = λ id r m _ _ _ h. h;
    deletions = λ m _ h. unfold receive_delete in h;
    suggestions = λ m _ h. h;
  }

  pub begin_run-HasCache :
      (w : W) (env : Envelope Spec State) (published : Option Attributes)
      → HasCache env
      → HasCache (begin_run patches d w env published).env
  unfolding begin_run
  begin_run-HasCache w env published h =
      if_keeps (λ (n : Machine W Spec State). HasCache n.env) env.initialized _ _ (λ _. h)
        (λ _. elim (Option-cases d.init) [
          | inl missing ↦ rw missing (rw env-upsert (rw env-upsert h))
          | inr (f, found) ↦ rw found (rw env-upsert h)
        ])

  -- In every machine that a run reaches from a well-formed envelope the dedup cache is well formed:
  -- its ids are distinct, they are those of the map, and they are at most `completed_ops_cap`.
  pub run-HasCache :
      (w : W) (env : Envelope Spec State) (published : Option Attributes) {m : Machine W Spec State}
      → HasCache env
      → Reach patches workflow_id d (begin_run patches d w env published) m
      → HasCache m.env
  run-HasCache w env published h r =
      reach_keeps patches workflow_id d (λ m. HasCache m.env) HasCache-Kept
        (begin_run-HasCache w env published h) r

-- ===== src/Entdefine/Mirror.antt =====
-- The search attributes that the server holds, over a run.
use temporal_entity.Base.{
  ◌+◌, ◌≡◌, refl, ◌∙◌, ap, sym, inl, inr, if_keeps, true, false, Option, none, some, List, [], ◌∷◌,
  Str, arith, Dict, lookup, Result, ok, err, Option-cases, Check,
}
use temporal_entity.Entity.State.{Phase}
use temporal_entity.Entity.Command.{Codec, CommandName}
use temporal_entity.Wire.{Envelope, CommandEnvelope, UpdateArgs, record_completed}
use temporal_entity.Wire.Labels.{merge_labels_same}
use temporal_entity.Entdefine.Context.{Ctx, Mutation, mutate, mutate_all, view, set_label}
use temporal_entity.Entdefine.Attributes.{Attributes, label_values}
use temporal_entity.Entdefine.Definition.{Definition, CommandImpl}
use temporal_entity.Entdefine.Loop.{
  with_ctx, note, executed, value_of, error_of, Machine, Reach, begin_run, upsert, mirror_labels,
  with_phase, with_pending, patch_labels, run_set_labels, run_unknown, finish_command, begin_delete,
  finish_drain, finish_finalize, finish_reconcile, settle_init, accept_update, receive_delete, ctx,
}
use temporal_entity.Entdefine.Frame.{
  mutate_all-SameChassis, merge_labels-SameChassis, reject_all_frame,
}
use temporal_entity.Entdefine.Induction.{Kept}
use temporal_entity.Entdefine.Induction.Steps.{reach_keeps}

module _ {Spec State : Type 0} where
  mutate_same :
      (u : Mutation Spec State) (c : Ctx Spec State)
      → (mutate u c).labels_dirty ≡ false
      → ((mutate u c).env.labels ≡ c.env.labels) × (c.labels_dirty ≡ false)
  unfolding mutate set_label
  mutate_same (Mutation.put_spec s) c h = (refl, h)
  mutate_same (Mutation.put_state s) c h = (refl, h)
  mutate_same (Mutation.put_label k v) c h = ground (arith, merge_labels_same ((k, v) ∷ []) c.env)

  -- Calls that leave the labels clean leave them alone.
  mutate_all_same :
      (us : List (Mutation Spec State)) (c : Ctx Spec State)
      → (mutate_all us c).labels_dirty ≡ false
      → ((mutate_all us c).env.labels ≡ c.env.labels) × (c.labels_dirty ≡ false)
  unfolding mutate_all
  mutate_all_same [] c h = (refl, h)
  mutate_all_same (u ∷ us) c h =
      let (rest, clean) = mutate_all_same us (mutate u c) h in
      let (one, was_clean) = mutate_same u c clean in (rest ∙ one, was_clean)

module _ {W Spec State : Type 0} (d : Definition W Spec State) where
  -- The attributes that an upsert would publish.
  abbrev pub attributes_of : Envelope Spec State → Attributes
  attributes_of env = record { kind = d.kind; phase = env.phase; labels = label_values env.labels }

  -- The server holds the attributes of the entity, unless the labels are marked dirty.
  abbrev pub IsMirrored : Machine W Spec State → Type 0
  IsMirrored m = m.labels_dirty ≡ false → m.published ≡ some (attributes_of m.env)

module _ {W Spec State : Type 0} (d : Definition W Spec State)
    (on : d.use_search_attrs ≡ true) where
  upsert-IsMirrored : (m : Machine W Spec State) → IsMirrored d (upsert d m)
  unfolding upsert
  upsert-IsMirrored m clean = ground arith

  mirror_labels-IsMirrored :
      (m : Machine W Spec State) → IsMirrored d m → IsMirrored d (mirror_labels d m)
  unfolding mirror_labels
  mirror_labels-IsMirrored m p =
      if_keeps (IsMirrored d) m.labels_dirty _ _
        (λ _. upsert-IsMirrored (record m { labels_dirty = false })) (λ _. p)

  -- Attributes that agree in the phase and the labels are the same.
  attributes_same :
      (e f : Envelope Spec State)
      → e.phase ≡ f.phase
      → e.labels ≡ f.labels
      → attributes_of d e ≡ attributes_of d f
  attributes_same e f h k = cc (h, k)

  -- With the same phase and, where the labels are clean, the same labels, a mirror stays one.
  mirror_moved :
      (m n : Machine W Spec State)
      → n.published ≡ m.published
      → n.env.phase ≡ m.env.phase
      → (n.labels_dirty ≡ false → (n.env.labels ≡ m.env.labels) × (m.labels_dirty ≡ false))
      → IsMirrored d m
      → IsMirrored d n
  mirror_moved m n published phase labels p clean =
      let (same, was_clean) = labels clean in
      published ∙ p was_clean ∙ ap some (attributes_same m.env n.env (sym phase) (sym same))

module _ {W Spec State : Type 0} (patches : Codec (Dict Str)) (workflow_id : Str)
    (d : Definition W Spec State) (on : d.use_search_attrs ≡ true) where
  patch_labels-IsMirrored :
      (c : CommandEnvelope) (patch : Result (Dict Str)) (m : Machine W Spec State)
      → IsMirrored d m
      → IsMirrored d (patch_labels patches d c patch m)
  unfolding patch_labels record_completed
  patch_labels-IsMirrored c (err e) m p = p
  patch_labels-IsMirrored c (ok patch) m p =
      mirror_moved d on m (patch_labels patches d c (ok patch) m) refl
        (sym (merge_labels-SameChassis patch m.env).phase)
        (λ clean. ground (arith, merge_labels_same patch m.env)) p

  run_set_labels-IsMirrored :
      (c : CommandEnvelope) (m : Machine W Spec State)
      → IsMirrored d m
      → IsMirrored d (run_set_labels patches d c m)
  run_set_labels-IsMirrored c m p =
      unfold run_set_labels in
      mirror_labels-IsMirrored d on _ (patch_labels-IsMirrored c (patches.unmarshal c.payload) m p)

  finish_command-IsMirrored :
      (cmd : CommandImpl W Spec State) (c : CommandEnvelope) (m : Machine W Spec State)
      → IsMirrored d m
      → IsMirrored d (finish_command patches d cmd c m)
  unfolding finish_command record_completed
  finish_command-IsMirrored cmd c m p =
      let (w, us, res) = cmd.exec m.world (view (ctx m)) c.payload in
      let m' = with_ctx (mutate_all us (ctx m)) m in
      let n : Machine W Spec State = note (executed c) (record m' {
        world = w;
        env = record_completed c.request_id (value_of res) (error_of res) m'.env;
        processed = m.processed + 1;
      }) in
      mirror_labels-IsMirrored d on n (
        mirror_moved d on m n refl (sym (mutate_all-SameChassis us (ctx m)).phase)
          (mutate_all_same us (ctx m)) p)

  finish_reconcile-IsMirrored :
      (m : Machine W Spec State) → IsMirrored d m → IsMirrored d (finish_reconcile patches d m)
  unfolding finish_reconcile
  finish_reconcile-IsMirrored m p = elim (Option-cases d.reconcile) [
    | inl missing ↦ rw missing p
    | inr (f, found) ↦
        let (w, us, e) = f m.world (view (ctx m)) in
        rw found (
          mirror_moved d on m (with_ctx (mutate_all us (ctx m)) m) refl
            (sym (mutate_all-SameChassis us (ctx m)).phase) (mutate_all_same us (ctx m)) p)
  ]

  begin_delete-IsMirrored : (m : Machine W Spec State) → IsMirrored d (begin_delete patches d m)
  unfolding begin_delete
  begin_delete-IsMirrored m =
      let n = upsert d (with_phase Phase.deleting m) in
      let f = reject_all_frame m.env.pending n.env in
      mirror_moved d on n (begin_delete patches d m) refl f.1 (λ clean. (f.4, clean))
        (upsert-IsMirrored d on (with_phase Phase.deleting m))

  finish_drain-IsMirrored :
      (m : Machine W Spec State) → IsMirrored d m → IsMirrored d (finish_drain patches d m)
  unfolding finish_drain
  finish_drain-IsMirrored m p = elim (Option-cases d.finalize) [
    | inr (f, found) ↦ rw found p
    | inl missing ↦ rw missing (upsert-IsMirrored d on (with_phase Phase.deleted m))
  ]

  finish_finalize-IsMirrored :
      (r : W × State × Check) (m : Machine W Spec State)
      → IsMirrored d (finish_finalize patches d r m)
  unfolding finish_finalize
  finish_finalize-IsMirrored (w, st, none) m = upsert-IsMirrored d on _
  finish_finalize-IsMirrored (w, st, some e) m = upsert-IsMirrored d on _

  settle_init-IsMirrored :
      (r : W × State × Check) (m : Machine W Spec State)
      → IsMirrored d m
      → IsMirrored d (settle_init patches d r m)
  unfolding settle_init
  settle_init-IsMirrored (w, st, none) m p = upsert-IsMirrored d on _
  settle_init-IsMirrored (w, st, some e) m p =
      if_keeps (IsMirrored d) m.env.marked_for_deletion _ _ (λ _. p) (λ _. upsert-IsMirrored d on _)

  accept_update-IsMirrored :
      (name : CommandName) (args : UpdateArgs) (m : Machine W Spec State)
      → IsMirrored d m
      → IsMirrored d (accept_update name args m)
  unfolding accept_update
  accept_update-IsMirrored name args m p =
      elim (Option-cases (lookup args.request_id m.env.completed)) [
        | inr (r, found) ↦ rw (found, accept_update) p
        | inl fresh ↦ rw (fresh, accept_update) p
      ]

  IsMirrored-Kept : Kept patches workflow_id d (IsMirrored d)
  IsMirrored-Kept = record {
    begins_delete = λ m _ _ p. begin_delete-IsMirrored m;
    labels = λ c cs m _ _ _ _ p. run_set_labels-IsMirrored c (with_pending patches d cs m) p;
    unknowns = λ c cs m _ _ _ _ _ p. unfold run_unknown in unfold record_completed in p;
    takes = λ c cs m _ _ _ _ p. p;
    rolls = λ m _ _ _ _ p. p;
    idles = λ m _ _ _ p. p;
    commands = λ cmd c m _ _ p. finish_command-IsMirrored cmd c m p;
    drains = λ m _ _ p. finish_drain-IsMirrored m p;
    finalizes = λ r m _ _ p. finish_finalize-IsMirrored r m;
    continues = λ m _ _ p. p;
    wakes = λ m _ p. p;
    expires = λ m _ p. p;
    reconciles = λ m _ p. finish_reconcile-IsMirrored m p;
    settles = λ r m _ _ p. settle_init-IsMirrored r m p;
    cancels = λ m _ _ p. p;
    accepts = λ name args m _ _ p. accept_update-IsMirrored name args m p;
    answers = λ id r m _ _ _ p. p;
    deletions = λ m _ p. unfold receive_delete in p;
    suggestions = λ m _ p. p;
  }

  begin_run-IsMirrored :
      (w : W) (env : Envelope Spec State) (published : Option Attributes)
      → (env.initialized ≡ true → published ≡ some (attributes_of d env))
      → IsMirrored d (begin_run patches d w env published)
  unfolding begin_run
  begin_run-IsMirrored w env published h =
      if_keeps (IsMirrored d) env.initialized _ _ (λ started _. h started)
        (λ _. elim (Option-cases d.init) [
          | inl missing ↦ rw missing (upsert-IsMirrored d on _)
          | inr (f, found) ↦ rw found (upsert-IsMirrored d on _)
        ])

  -- If the definition uses search attributes and an entity that continues starts with its own ones
  -- at the server, then in every machine that the run reaches the server holds the kind, the phase
  -- and the labels of the entity, unless its labels are marked dirty.
  pub run-IsMirrored :
      (w : W) (env : Envelope Spec State) (published : Option Attributes) {m : Machine W Spec State}
      → (env.initialized ≡ true → published ≡ some (attributes_of d env))
      → Reach patches workflow_id d (begin_run patches d w env published) m
      → IsMirrored d m
  run-IsMirrored w env published h r =
      reach_keeps patches workflow_id d (IsMirrored d) IsMirrored-Kept
        (begin_run-IsMirrored w env published h) r

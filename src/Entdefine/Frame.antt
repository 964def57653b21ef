-- ===== src/Entdefine/Frame.antt =====
-- What the parts of the main loop leave alone: handlers cannot reach the queue, the cache or the
-- lifecycle of their entity.
use temporal_entity.Base.{◌≡◌, refl, Option, some, List, [], ◌∷◌, Str, arith, Dict, ◌∙◌, Error}
use temporal_entity.Entity.Command.{Payload}
use temporal_entity.Wire.{Envelope, CommandEnvelope, merge_labels, record_completed}
use temporal_entity.Entdefine.Definition.{Definition}
use temporal_entity.Entdefine.Loop.{Machine, upsert, mirror_labels, reject_all, rejected_error}
use temporal_entity.Entdefine.Context.{Ctx, Mutation, mutate, mutate_all}

module _ {Spec State : Type 0} where
  -- The fields that belong to the chassis are the same.
  pub record SameChassis (e f : Envelope Spec State) : Type 0 where
    pub initialized : e.initialized ≡ f.initialized
    pub phase : e.phase ≡ f.phase
    pub marked_for_deletion : e.marked_for_deletion ≡ f.marked_for_deletion
    pub pending : e.pending ≡ f.pending
    pub completed : e.completed ≡ f.completed
    pub completed_order : e.completed_order ≡ f.completed_order

  pub SameChassis-trans :
      {e f g : Envelope Spec State} → SameChassis e f → SameChassis f g → SameChassis e g
  SameChassis-trans h k = record {
    initialized = h.initialized ∙ k.initialized;
    phase = h.phase ∙ k.phase;
    marked_for_deletion = h.marked_for_deletion ∙ k.marked_for_deletion;
    pending = h.pending ∙ k.pending;
    completed = h.completed ∙ k.completed;
    completed_order = h.completed_order ∙ k.completed_order;
  }

  mutate-SameChassis :
      (u : Mutation Spec State) (c : Ctx Spec State) → SameChassis c.env (mutate u c).env
  unfolding mutate merge_labels
  mutate-SameChassis u c = ground arith

  -- Whatever calls a handler makes on its `Ctx`, they change only the spec, the state and the labels.
  pub mutate_all-SameChassis :
      (us : List (Mutation Spec State)) (c : Ctx Spec State)
      → SameChassis c.env (mutate_all us c).env
  unfolding mutate_all
  mutate_all-SameChassis [] c = ground arith
  mutate_all-SameChassis (u ∷ us) c =
      SameChassis-trans (mutate-SameChassis u c) (mutate_all-SameChassis us (mutate u c))

  -- `RecordCompleted` touches the cache alone, `MergeLabels` the labels alone.
  pub record_completed_frame :
      (id : Str) (res : Payload) (e : Option Error) (env : Envelope Spec State)
      → let f = record_completed id res e env in
        (f.initialized ≡ env.initialized)
        × (f.phase ≡ env.phase)
        × (f.marked_for_deletion ≡ env.marked_for_deletion)
        × (f.pending ≡ env.pending)
        × (f.labels ≡ env.labels)
  unfolding record_completed
  record_completed_frame id res e env = (refl, refl, refl, refl, refl)

  pub merge_labels-SameChassis :
      (patch : Dict Str) (env : Envelope Spec State) → SameChassis env (merge_labels patch env).0
  unfolding merge_labels
  merge_labels-SameChassis patch env = ground arith

  pub reject_all_frame :
      (cs : List CommandEnvelope) (env : Envelope Spec State)
      → let f = reject_all cs env in
        (f.initialized ≡ env.initialized)
        × (f.phase ≡ env.phase)
        × (f.marked_for_deletion ≡ env.marked_for_deletion)
        × (f.pending ≡ env.pending)
        × (f.labels ≡ env.labels)
  unfolding reject_all
  reject_all_frame [] env = (refl, refl, refl, refl, refl)
  reject_all_frame (c ∷ cs) env = ground (
    arith,
    record_completed_frame c.request_id [] (some (rejected_error c)) env,
    reject_all_frame cs (record_completed c.request_id [] (some (rejected_error c)) env),
  )

module _ {W Spec State : Type 0} (d : Definition W Spec State) (m : Machine W Spec State) where
  pub env-upsert : (upsert d m).env ≡ m.env
  unfolding upsert
  env-upsert = ground arith

  pub pc-upsert : (upsert d m).pc ≡ m.pc
  unfolding upsert
  pc-upsert = ground arith

  pub waiting-upsert : (upsert d m).waiting ≡ m.waiting
  unfolding upsert
  waiting-upsert = ground arith

  pub history-upsert : (upsert d m).history ≡ m.history
  unfolding upsert
  history-upsert = ground arith

  pub processed-upsert : (upsert d m).processed ≡ m.processed
  unfolding upsert
  processed-upsert = ground arith

  pub labels_dirty-upsert : (upsert d m).labels_dirty ≡ m.labels_dirty
  unfolding upsert
  labels_dirty-upsert = ground arith

  pub env-mirror_labels : (mirror_labels d m).env ≡ m.env
  unfolding mirror_labels
  env-mirror_labels = ground arith

  pub pc-mirror_labels : (mirror_labels d m).pc ≡ m.pc
  unfolding mirror_labels
  pc-mirror_labels = ground arith

  pub waiting-mirror_labels : (mirror_labels d m).waiting ≡ m.waiting
  unfolding mirror_labels
  waiting-mirror_labels = ground arith

  pub history-mirror_labels : (mirror_labels d m).history ≡ m.history
  unfolding mirror_labels
  history-mirror_labels = ground arith

  pub processed-mirror_labels : (mirror_labels d m).processed ≡ m.processed
  unfolding mirror_labels
  processed-mirror_labels = ground arith

-- An upsert or a mirror publishes, and leaves the rest of the run alone.
pub ruleset publish_laws = (
  env-upsert, pc-upsert, waiting-upsert, history-upsert, processed-upsert, labels_dirty-upsert,
  env-mirror_labels, pc-mirror_labels, waiting-mirror_labels, history-mirror_labels,
  processed-mirror_labels,
)

-- ===== src/Reconciler/Deployment/Recovering.antt =====
-- `applyAndWaitReady` on the in-memory cluster of examples/reconciler/main.go.
use temporal_entity.Base.{
  ℕ, ◌<◌, ◌≡◌, refl, ◌∙◌, ap, ◌⊎◌, none, some, Str, arith, lookup, insert, lookup-insert, ==_refl,
  ok,
}
use temporal_entity.Entity.Command.{Payload, Codec}
use temporal_entity.K8slib.Config.{Config}
use temporal_entity.K8slib.Handlers.{apply_and_wait_ready, apply_encoded, await_ready}
use temporal_entity.K8slib.Fake.{Cluster, key, error_at, apply, fake_activities}
use temporal_entity.Reconciler.Deployment.{Deployment, no_deployment, has_replicas, converge}
use temporal_entity.Reconciler.Deployment.Converging.{
  IsFaithful, gap, this, Holds, Outcome, poll_ready-outcome,
}

module _ (json : Codec Deployment) (law : IsFaithful json) (digest : Payload → Str)
    (decimal : ℕ → Str) (cfg : Config Deployment) (full : Str) where
  -- The cluster runs the hook and is not told to fail the entity's object.
  pub record IsWorking (c : Cluster) : Type 0 where
    pub hook : c.converge ≡ some (converge json)
    pub obeys : error_at (key cfg.gvk (this json law digest decimal cfg full)) c.fail_apply ≡ none

  -- What is under the entity's key: nothing, or a deployment.
  abbrev pub IsReadable : Cluster → Type 0
  IsReadable c =
      (lookup (key cfg.gvk (this json law digest decimal cfg full)) c.objects ≡ none)
      ⊎ ((live : Deployment) × Holds json law digest decimal cfg full live c)

module _ (json : Codec Deployment) (law : IsFaithful json) (digest : Payload → Str)
    (decimal : ℕ → Str) (cfg : Config Deployment) (full : Str)
    (ready : cfg.is_ready ≡ some has_replicas) (looks : 0 < cfg.poll_attempts) where
  pub apply-Holds :
      (desired : Deployment) (m : Payload) (c : Cluster)
      → IsWorking json law digest decimal cfg full c
      → json.unmarshal m ≡ ok desired
      → (v : Cluster) × (apply cfg.gvk (this json law digest decimal cfg full) m c ≡ (v, none))
        × Holds json law digest decimal cfg full desired v
  unfolding apply
  apply-Holds desired m c w e =
      let k = key cfg.gvk (this json law digest decimal cfg full) in
      (
        record c { objects = insert k m c.objects },
        rw (w.obeys, apply) refl,
        record {
          manifest = m;
          hook = w.hook;
          there = lookup-insert k k m c.objects ∙ (rw (==_refl k) refl);
          decodes = e;
        },
      )

  pub apply-outcome :
      (desired : Deployment) (c : Cluster)
      → IsWorking json law digest decimal cfg full c
      → (apply_and_wait_ready json no_deployment digest decimal fake_activities cfg full desired
          c).2
        ≡ Outcome json law digest decimal cfg full ready cfg.poll_attempts (gap desired)
  unfolding apply_and_wait_ready apply_encoded await_ready
  apply-outcome desired c w =
      let (m, encoded, decoded) = law desired in
      let (v, applied, held) = apply-Holds desired m c w decoded in
      ap (λ r. (apply_encoded json no_deployment digest decimal fake_activities cfg full r c).2)
        encoded
      ∙ ap (λ r. (await_ready json no_deployment digest decimal fake_activities cfg full m r).2)
          applied
      ∙ poll_ready-outcome json law digest decimal cfg full ready cfg.poll_attempts desired _ v
          (omega (arith, looks)) held

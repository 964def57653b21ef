-- ===== src/Reconciler/Kind/Rollout.antt =====
-- The kind of examples/reconciler/main.go on the in-memory cluster: an apply that is waited for, and a
-- tick.
use temporal_entity.Base.{
  ℕ, ◌≤◌, ◌≡◌, refl, ◌∙◌, ap, ok, none, some, Str, arith, leb, if◌then◌else◌, ℤ, true,
}
use temporal_entity.Entity.Command.{Payload, Codec}
use temporal_entity.Entdefine.Context.{View}
use temporal_entity.K8slib.Config.{Config, LiveState, new_config}
use temporal_entity.K8slib.Digest.{digest_of}
use temporal_entity.K8slib.Handlers.{
  is_ready_phase, no_state, apply_and_wait_ready, not_ready_error, reconcile_drift,
}
use temporal_entity.K8slib.Fake.{Cluster, fake_activities}
use temporal_entity.Reconciler.Deployment.{Deployment, no_deployment, has_replicas, differs}
use temporal_entity.Reconciler.Deployment.Converging.{IsFaithful, gap}
use temporal_entity.Reconciler.Deployment.Recovering.{IsWorking, IsReadable, apply-outcome}
use temporal_entity.Reconciler.Deployment.Up.{IsUp, apply-IsUp}
use temporal_entity.Reconciler.Deployment.Repairing.{
  IsRepaired, needs_repair, reconcile_drift-IsRepaired,
}
use temporal_entity.Reconciler.BlueGreen.{deployment_gvk}
use temporal_entity.Reconciler.Kind.{deployment_options}

-- The configuration that `NewKind` makes of the options.
abbrev pub deployment_config : (ℤ → Str) → Config Deployment
deployment_config show = new_config deployment_gvk (deployment_options show)

module _ (show : ℤ → Str) where
  is_ready-deployment_config : (deployment_config show).is_ready ≡ some has_replicas
  unfolding new_config
  is_ready-deployment_config = refl

  is_drifted-deployment_config : (deployment_config show).is_drifted ≡ some differs
  unfolding new_config
  is_drifted-deployment_config = refl

  pub poll_attempts-deployment_config : (deployment_config show).poll_attempts ≡ 100
  unfolding new_config
  poll_attempts-deployment_config = refl

module _ (json : Codec Deployment) (law : IsFaithful json) (sha256 : Payload → Str)
    (decimal : ℕ → Str) (show : ℤ → Str) (full : Str) where
  -- The cluster runs the hook of `run`, and is not told to fail the entity's object.
  abbrev pub Works : Cluster → Type 0
  Works = IsWorking json law (digest_of sha256) decimal (deployment_config show) full

  abbrev pub Readable : Cluster → Type 0
  Readable = IsReadable json law (digest_of sha256) decimal (deployment_config show) full

  -- On the in-memory cluster with the hook of the demonstration, if it is not told to fail the object
  -- and JSON decodes what it encoded, applying a deployment and waiting for it succeeds exactly if at
  -- most 100 of its replicas are missing, and otherwise gives the error of a resource that is not
  -- ready in time.
  pub rollout_outcome :
      (desired : Deployment) (c : Cluster)
      → Works c
      → (apply_and_wait_ready json no_deployment
          (digest_of sha256)
          decimal
          fake_activities
          (deployment_config show)
          full
          desired
          c).2
        ≡ (if leb (gap desired) 100
            then none
            else some (
                not_ready_error json no_deployment
                  (digest_of sha256)
                  decimal
                  fake_activities
                  (deployment_config show)
                  full))
  rollout_outcome desired c w =
      apply-outcome json law (digest_of sha256) decimal (deployment_config show) full
        (is_ready-deployment_config show) (omega (arith, poll_attempts-deployment_config show))
        desired c w
      ∙ ap
          (λ n.
            if leb (gap desired) n
            then none
            else some (
                not_ready_error json no_deployment (digest_of sha256) decimal fake_activities
                  (deployment_config show) full))
          (poll_attempts-deployment_config show)

  -- On the in-memory cluster with the hook of the demonstration, if it is not told to fail the object,
  -- JSON decodes what it encoded, and the object is missing or holds any deployment at all, a tick of a
  -- ready entity whose spec misses at most 100 replicas ends without an error, and writes a state that
  -- is not drifted. The live deployment of that state is what the cluster then holds under the entity's
  -- key, with the image and the number of replicas of the spec. Exactly if the object was missing or
  -- differed from the spec, one more repair is counted, and then no replica is missing.
  pub tick_recovers :
      (view : View Deployment (LiveState Deployment)) (c : Cluster)
      → is_ready_phase view.phase ≡ true
      → gap view.spec ≤ 100
      → Works c
      → (readable : Readable c)
      → IsRepaired json law
          (digest_of sha256)
          decimal
          (deployment_config show)
          full
          view.spec
          view.state
          (needs_repair json law
            (digest_of sha256)
            decimal
            (deployment_config show)
            full
            view.spec
            c
            readable)
          (reconcile_drift json no_deployment
            (digest_of sha256)
            decimal
            fake_activities
            (deployment_config show)
            full
            c
            view)
  tick_recovers view c up enough w readable =
      reconcile_drift-IsRepaired json law (digest_of sha256) decimal (deployment_config show) full
        (is_ready-deployment_config show) (omega (arith, poll_attempts-deployment_config show)) view
        c (is_drifted-deployment_config show) up w readable
        (omega (arith, enough, poll_attempts-deployment_config show))

  -- An apply that is waited for, of a deployment that misses at most 100 replicas.
  pub rollout-IsUp :
      (desired : Deployment) (m : Payload) (c : Cluster)
      → json.marshal desired ≡ ok m
      → gap desired ≤ 100
      → Works c
      → IsUp json law
          (digest_of sha256)
          decimal
          (deployment_config show)
          full
          desired
          (record (no_state json no_deployment
            (digest_of sha256)
            decimal
            fake_activities
            (deployment_config show)
            full) { desired_digest = digest_of sha256 m })
          (apply_and_wait_ready json no_deployment
            (digest_of sha256)
            decimal
            fake_activities
            (deployment_config show)
            full
            desired
            c)
  rollout-IsUp desired m c encoded enough w =
      apply-IsUp json law (digest_of sha256) decimal (deployment_config show) full
        (is_ready-deployment_config show) desired m c encoded w
        (omega (arith, poll_attempts-deployment_config show))
        (omega (arith, enough, poll_attempts-deployment_config show))

-- ===== src/Reconciler/Kind/Deleted.antt =====
-- The deletion of an entity of examples/reconciler/main.go, on the in-memory cluster.
use temporal_entity.Base.{
  ℕ, ◌≡◌, ap, none, some, Str, ℤ, Dict, lookup, insert, erase, Result, Check, codes,
}
use temporal_entity.Entity.State.{Phase}
use temporal_entity.Entity.Command.{Payload, Codec}
use temporal_entity.Entdefine.Loop.{Machine, Reach, at_drain, closed, completed}
use temporal_entity.Entdefine.Draining.{AllRecorded, deletion_completes}
use temporal_entity.K8slib.Digest.{digest_of}
use temporal_entity.K8slib.Handlers.{own_id, delete_and_wait_gone}
use temporal_entity.K8slib.Fake.{Cluster, key, error_at, fake_activities}
use temporal_entity.K8slib.Fake.Serving.{delete_and_wait_gone-removes}
use temporal_entity.K8slib.Kind.Applied.{new_kind-finalizes}
use temporal_entity.Reconciler.Deployment.{Deployment, no_deployment}
use temporal_entity.Reconciler.BlueGreen.{Live, deployment_gvk}
use temporal_entity.Reconciler.Kind.{deployment_options, Codecs, new_deployment_kind}
use temporal_entity.Reconciler.Kind.Rollout.{deployment_config, poll_attempts-deployment_config}

module _ (json : Codecs) (sha256 : Payload → Str) (decimal : ℕ → Str) (show : ℤ → Str)
    (children : Str → (Cluster → Cluster × Result Str) → Cluster → Cluster × Result Str)
    (full : Str) (patches : Codec (Dict Str)) where
  -- The key of the entity's object.
  abbrev pub object_key : Str
  object_key = key (deployment_config show).gvk (
      own_id json.deployment no_deployment (digest_of sha256) decimal fake_activities
        (deployment_config show) full)

  finalizer : Cluster → Live → Cluster × Live × Check
  finalizer c st =
      let (v, e) =
        delete_and_wait_gone json.deployment no_deployment (digest_of sha256) decimal
          fake_activities (deployment_config show) full c in
      (v, st, e)

  finalize-demo_kind :
      (new_deployment_kind json sha256 decimal show
        (λ cancelled. fake_activities)
        children
        full).finalize
      ≡ some finalizer
  unfolding new_deployment_kind finalizer lookup insert
  finalize-demo_kind =
      new_kind-finalizes json.deployment json.apply json.apply_res no_deployment
        (codes "main.Deployment") (digest_of sha256) decimal (λ cancelled. fake_activities) full
        deployment_gvk (deployment_options show)

  -- On the in-memory cluster, if it is not told to fail the deletion of the object, an entity of the
  -- kind that is being deleted and whose waiting handlers all have a recorded outcome can answer all of
  -- them and then complete, in phase deleted, with its object out of the cluster and nothing else of
  -- the cluster changed.
  pub deployment_deleted :
      (m : Machine Cluster Deployment Live)
      → m.pc ≡ at_drain
      → AllRecorded patches full
          (new_deployment_kind json sha256 decimal show
            (λ cancelled. fake_activities)
            children
            full)
          m.waiting
          m
      → error_at object_key m.world.fail_delete ≡ none
      → (n : Machine Cluster Deployment Live) × Reach patches full
          (new_deployment_kind json sha256 decimal show
            (λ cancelled. fake_activities)
            children
            full)
          m
          n
        × (n.pc ≡ closed completed)
        × (n.env.phase ≡ Phase.deleted)
        × (n.world ≡ record m.world { objects = erase object_key m.world.objects })
  unfolding finalizer
  deployment_deleted m drains recorded obeys =
      deletion_completes patches full
        (new_deployment_kind json sha256 decimal show (λ cancelled. fake_activities) children full)
        m finalizer _ m.env.state drains recorded finalize-demo_kind
        (ap (λ r. (r.0, m.env.state, r.1))
          (delete_and_wait_gone-removes json.deployment no_deployment (digest_of sha256) decimal
            (deployment_config show) full 99 m.world (poll_attempts-deployment_config show) obeys))

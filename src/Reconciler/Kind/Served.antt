-- ===== src/Reconciler/Kind/Served.antt =====
-- The commands of examples/reconciler/main.go as the entity serves them, on the in-memory cluster.
use temporal_entity.Base.{
  ℕ, ◌≤◌, ◌≡◌, refl, ◌∙◌, ap, false, true, some, [], ◌∷◌, Str, codes, ℤ, Dict, Result, ok, ◌==◌,
  lookup,
}
use temporal_entity.Entity.State.{set_labels_command_name}
use temporal_entity.Entity.Command.{Payload, Codec}
use temporal_entity.Wire.{CommandEnvelope}
use temporal_entity.Entdefine.Context.{put_spec, put_state}
use temporal_entity.Entdefine.Definition.{Definition, CommandImpl}
use temporal_entity.Entdefine.Serial.{
  Entity, seen, serve, serve_declared, change, change_all, remember,
}
use temporal_entity.Entdefine.Serial.Simulation.{serve_declared-serve}
use temporal_entity.K8slib.Digest.{digest_of}
use temporal_entity.K8slib.Fake.{Cluster, fake_activities}
use temporal_entity.K8slib.Handlers.{apply_and_wait_ready}
use temporal_entity.K8slib.Kind.{Apply, apply_name}
use temporal_entity.K8slib.Kind.Applied.{exec_apply-ok, new_kind-executes}
use temporal_entity.Reconciler.Deployment.{Deployment, no_deployment}
use temporal_entity.Reconciler.Deployment.Converging.{IsFaithful, gap, Holds}
use temporal_entity.Reconciler.BlueGreen.{Live, deployment_gvk}
use temporal_entity.Reconciler.Kind.{deployment_options, Codecs, new_deployment_kind}
use temporal_entity.Reconciler.Kind.Rollout.{deployment_config, Works, rollout-IsUp}
use temporal_entity.Reconciler.Kind.Declared.{lookup-apply}

module _ {W Spec State : Type 0} (patches : Codec (Dict Str)) (d : Definition W Spec State) where
  -- A declared command whose handler is known.
  pub serve-declared :
      (impl : CommandImpl W Spec State) (c : CommandEnvelope) (s : Entity W Spec State) (w : W)
      (r : Result Payload) (us : _)
      → (c.name == set_labels_command_name) ≡ false
      → lookup c.name d.commands ≡ some impl
      → impl.exec s.world (seen s) c.payload ≡ (w, us, r)
      → serve patches d c s ≡ remember c.request_id r (record (change_all us s) { world = w })
  unfolding serve_declared
  serve-declared impl c s w r us declared found ran =
      serve_declared-serve patches d impl c s declared found
      ∙ ap (λ o. remember c.request_id o.2 (record (change_all o.1 s) { world = o.0 })) ran

module _ (json : Codecs) (law : IsFaithful json.deployment) (sha256 : Payload → Str)
    (decimal : ℕ → Str) (show : ℤ → Str)
    (children : Str → (Cluster → Cluster × Result Str) → Cluster → Cluster × Result Str)
    (full : Str) (patches : Codec (Dict Str)) where
  abbrev pub demo_kind : Definition Cluster Deployment Live
  demo_kind =
      new_deployment_kind json sha256 decimal show (λ cancelled. fake_activities) children full

  -- On the in-memory cluster with the hook of the demonstration, if it is not told to fail the object
  -- and JSON decodes what it encoded, an entity of the kind serves an apply command, whose payload
  -- decodes to a deployment with at most 100 replicas missing, as follows: its spec is that deployment,
  -- its state is ready, not drifted, without repairs, and has the digest of the encoded deployment; the
  -- cluster holds the live deployment of the state under the entity's key, with the desired image and
  -- number of replicas and none missing; and what is remembered for the request is the encoded answer
  -- with this digest and ready.
  pub apply_served :
      (c : CommandEnvelope) (s : Entity Cluster Deployment Live) (cmd : Apply Deployment)
      (manifest answer : Payload)
      → c.name ≡ apply_name
      → json.apply.unmarshal c.payload ≡ ok cmd
      → json.deployment.marshal cmd.spec ≡ ok manifest
      → json.apply_res.marshal (record { digest = digest_of sha256 manifest; ready = true })
        ≡ ok answer
      → gap cmd.spec ≤ 100
      → Works json.deployment law sha256 decimal show full s.world
      → (w : Cluster) × (live : Deployment) × (serve patches demo_kind c s
          ≡ remember c.request_id (ok answer) (record s {
            world = w;
            spec = cmd.spec;
            state = record {
              live = live;
              ready = true;
              desired_digest = digest_of sha256 manifest;
              drifted = false;
              heals = 0;
            };
          }))
        × Holds json.deployment law (digest_of sha256) decimal (deployment_config show) full live w
        × (live.image ≡ cmd.spec.image)
        × (live.replicas ≡ cmd.spec.replicas)
        × (gap live ≡ 0)
  unfolding change_all change
  apply_served c s cmd manifest answer named decoded encoded answered enough works =
      let r =
        apply_and_wait_ready json.deployment no_deployment (digest_of sha256) decimal
          fake_activities (deployment_config show) full cmd.spec s.world in
      let up =
        rollout-IsUp json.deployment law sha256 decimal show full cmd.spec manifest s.world encoded
          enough works in
      let st : Live = record {
        live = r.1.live;
        ready = true;
        desired_digest = digest_of sha256 manifest;
        drifted = false;
        heals = 0;
      } in
      let (impl, found, executes) =
        new_kind-executes json.deployment json.apply json.apply_res no_deployment
          (codes "main.Deployment") (digest_of sha256) decimal (λ cancelled. fake_activities) full
          deployment_gvk (deployment_options show) in
      (
        r.0,
        r.1.live,
        serve-declared patches demo_kind impl c s r.0 (ok answer)
            (put_spec cmd.spec ∷ put_state st ∷ [])
            (ap (λ n. n == set_labels_command_name) named ∙ (unfold ◌==◌ in refl))
            (ap (λ n. lookup n demo_kind.commands) named
              ∙ lookup-apply json sha256 decimal show (λ cancelled. fake_activities) children full
              ∙ found)
            (ap (λ f. f s.world (seen s) c.payload) executes
              ∙ exec_apply-ok json.deployment json.apply json.apply_res no_deployment
                  (codes "main.Deployment") (digest_of sha256) decimal
                  (λ cancelled. fake_activities) full (deployment_config show) (seen s) c.payload
                  answer cmd st s.world r.0 decoded (λ i. (r.0, up.state i, up.quiet i)) answered),
        up.holds,
        up.image,
        up.replicas,
        up.complete,
      )

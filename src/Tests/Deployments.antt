-- ===== src/Tests/Deployments.antt =====
-- The kind of examples/reconciler/main.go on the in-memory cluster, at concrete deployments.
use temporal_entity.Base.{
  decimal, show_int, ℕ, zero, suc, ◌≡◌, inl, refl, true, false, none, some, [], ◌∷◌, Str, codes, ℤ,
  pos, negsuc, arith, leb, if◌then◌else◌, ◌==◌, lookup, Error, Result, ok, err, new_error,
}
use temporal_entity.Entity.State.{Phase}
use temporal_entity.Entity.Command.{Payload, Codec}
use temporal_entity.Entdefine.Context.{View, put_spec}
use temporal_entity.K8slib.Config.{LiveState}
use temporal_entity.K8slib.Digest.{digest_of}
use temporal_entity.K8slib.Kind.{apply_name}
use temporal_entity.K8slib.Handlers.{apply_and_wait_ready, not_ready_error, reconcile_drift}
use temporal_entity.K8slib.Cluster.{worker_activities, register_activities}
use temporal_entity.K8slib.Fake.{Cluster, new_cluster, fake_activities}
use temporal_entity.K8slib.Fake.Api.{fake_cluster, worker_activities-fake}
use temporal_entity.Reconciler.Deployment.{Deployment, no_deployment, converge}
use temporal_entity.Reconciler.Deployment.Converging.{IsFaithful, Holds, gap}
use temporal_entity.Reconciler.Deployment.Repairing.{IsRepaired}
use temporal_entity.Reconciler.BlueGreen.{BlueGreen, blue_green, warmup_workflow}
use temporal_entity.Reconciler.BlueGreen.Steps.{web_key, green_key}
use temporal_entity.Reconciler.BlueGreen.Switching.{
  SameSettings, blue_green_switches, blue_green_rolls_back, failed_switch_keeps_spec,
}
use temporal_entity.Reconciler.Kind.{Codecs, new_deployment_kind}
use temporal_entity.Reconciler.Kind.Rollout.{deployment_config, rollout_outcome, tick_recovers}
use temporal_entity.Wire.{CommandEnvelope, UpdateArgs}
use temporal_entity.Entdefine.Serial.{Entity, serve, remember}
use temporal_entity.Reconciler.Kind.Served.{demo_kind, apply_served}
use temporal_entity.Base.{erase}
use temporal_entity.Entdefine.Loop.{
  Machine, Reach, at_drain, at_idle, closed, completed, validate_update,
}
use temporal_entity.Reconciler.Kind.Deleted.{object_key, deployment_deleted}
use temporal_entity.Tests.Fixtures.{patches}
use temporal_entity.Reconciler.Kind.Declared.{deployment_validators}

-- A number is its sign and its size.
abbrev sign : ℤ → ℕ
sign (pos n) = 0
sign (negsuc n) = 1

abbrev size : ℤ → ℕ
size (pos n) = n
size (negsuc n) = n

abbrev number : ℕ → ℕ → ℤ
number zero n = pos n
number (suc s) n = negsuc n

number-sign : (a : ℤ) → number (sign a) (size a) ≡ a
number-sign (pos n) = refl
number-sign (negsuc n) = refl

abbrev parsed : Payload → Result Deployment
parsed (s ∷ n ∷ t ∷ k ∷ image) =
    ok (record { image = image; replicas = number s n; ready_replicas = number t k })
parsed p = err (new_error (codes "unexpected end of JSON input"))

abbrev json : Codec Deployment
json = record {
  marshal = λ d.
      ok (
        sign d.replicas
        ∷ size d.replicas
        ∷ sign d.ready_replicas
        ∷ size d.ready_replicas
        ∷ d.image);
  unmarshal = parsed;
}

json-IsFaithful : IsFaithful json
json-IsFaithful d = (
  sign d.replicas ∷ size d.replicas ∷ sign d.ready_replicas ∷ size d.ready_replicas ∷ d.image,
  refl,
  λ i. ok (record {
    image = d.image;
    replicas = number-sign d.replicas i;
    ready_replicas = number-sign d.ready_replicas i;
  }),
)

abbrev same : Payload → Str
same p = p

abbrev full : Str
full = codes "k8s/apps/v1/Deployment/prod/web"

-- A child workflow runs at once.
abbrev children : Str → (Cluster → Cluster × Result Str) → Cluster → Cluster × Result Str
children id act c = act c

-- Temporal does not start the child.
abbrev no_children : Str → (Cluster → Cluster × Result Str) → Cluster → Cluster × Result Str
no_children id act c = (c, err (new_error (codes "not started")))

abbrev demo : Cluster
demo = record new_cluster { converge = some (converge json) }

abbrev two : Deployment
two = record { image = codes "a"; replicas = pos 2; ready_replicas = pos 0 }

abbrev many : Deployment
many = record { image = codes "a"; replicas = pos 101; ready_replicas = pos 0 }

rollout_outcome_example :
    (apply_and_wait_ready json no_deployment
      (digest_of same)
      decimal
      fake_activities
      (deployment_config show_int)
      full
      many
      demo).2
    ≡ (if leb 101 100
        then none
        else some (
            not_ready_error json no_deployment
              (digest_of same)
              decimal
              fake_activities
              (deployment_config show_int)
              full))
rollout_outcome_example =
    rollout_outcome json json-IsFaithful same decimal show_int full many demo
      (record { hook = refl; obeys = unfold lookup in refl })

abbrev live_state : LiveState Deployment
live_state = record { live = two; ready = false; desired_digest = []; drifted = true; heals = 0 }

abbrev view : View Deployment (LiveState Deployment)
view = record { spec = two; state = live_state; phase = Phase.ready; labels = [] }

tick_recovers_example :
    IsRepaired json json-IsFaithful
      (digest_of same)
      decimal
      (deployment_config show_int)
      full
      two
      live_state
      true
      (reconcile_drift json no_deployment
        (digest_of same)
        decimal
        fake_activities
        (deployment_config show_int)
        full
        demo
        view)
tick_recovers_example =
    tick_recovers json json-IsFaithful same decimal show_int full view demo refl (ground arith)
      (record { hook = refl; obeys = unfold lookup in refl }) (inl (unfold lookup in refl))

abbrev cmd : BlueGreen
cmd = record { new_image = codes "b" }

abbrev green_bytes : Payload
green_bytes = 0 ∷ 2 ∷ 0 ∷ 0 ∷ codes "b"

abbrev green : Deployment
green = record two { image = codes "b" }

abbrev warmed : Str
warmed = codes "warmed:prod/web-green"

blue_green_switches_example :
    (v : Cluster) × (blue_green json fake_activities children full demo view cmd
      ≡ (v, put_spec green ∷ [], ok (record { switched = warmed })))
    × SameSettings v demo
    × ((k : Str)
        → lookup k v.objects ≡ (
            if green_key == k
            then none
            else if web_key == k
            then some green_bytes
            else lookup k []))
blue_green_switches_example =
    blue_green_switches json children full view cmd green_bytes demo refl (unfold lookup in refl)
      (unfold lookup in refl) warmed (λ v. unfold warmup_workflow in refl) (unfold lookup in refl)

blue_green_rolls_back_example :
    (v : Cluster) × (f : Error) × (blue_green json fake_activities no_children full demo view cmd
      ≡ (v, [], err f))
    × SameSettings v demo
    × ((k : Str) → lookup k v.objects ≡ (if green_key == k then none else lookup k []))
blue_green_rolls_back_example =
    blue_green_rolls_back json no_children full view cmd green_bytes demo refl
      (unfold lookup in refl) (unfold lookup in refl) (new_error (codes "not started")) (λ v. refl)

abbrev broken : Cluster
broken = record demo { fail_apply = (web_key, some (new_error (codes "full"))) ∷ [] }

failed_switch_keeps_spec_example :
    (v : Cluster) × (f : Error) × (blue_green json fake_activities children full broken view cmd
      ≡ (v, put_spec green ∷ [], err f))
    × SameSettings v broken
    × ((k : Str) → lookup k v.objects ≡ (if green_key == k then none else lookup k []))
failed_switch_keeps_spec_example =
    failed_switch_keeps_spec json children full view cmd green_bytes broken refl
      (unfold lookup in unfold ◌==◌ in refl) (unfold lookup in refl) warmed
      (new_error (codes "full")) (λ v. unfold warmup_workflow in refl)
      (unfold lookup in unfold ◌==◌ in refl)

worker_activities-fake_example :
    worker_activities new_error (λ n c. (c, none)) (register_activities fake_cluster [])
    ≡ fake_activities
worker_activities-fake_example = worker_activities-fake new_error []

abbrev no_json : Error
no_json = new_error (codes "unexpected end of JSON input")

abbrev codecs : Codecs
codecs = record {
  deployment = json;
  apply = record {
    marshal = λ a. json.marshal a.spec;
    unmarshal = λ p. elim (parsed p) [ err e ↦ err e | ok d ↦ ok (record { spec = d }) ];
  };
  apply_res = record { marshal = λ r. ok r.digest; unmarshal = λ p. err no_json };
  blue_green = record {
    marshal = λ b. ok b.new_image;
    unmarshal = λ p. ok (record { new_image = p });
  };
  blue_green_res = record {
    marshal = λ r. ok r.switched;
    unmarshal = λ p. ok (record { switched = p });
  };
  health = record { marshal = λ q. ok []; unmarshal = λ p. ok (record { nothing = tt }) };
  health_res = record { marshal = λ r. ok []; unmarshal = λ p. err no_json };
}

-- No replica for apply, which blue-green reads as an image.
abbrev no_replica : UpdateArgs
no_replica = record { request_id = codes "r2"; payload = 0 ∷ 0 ∷ 0 ∷ 0 ∷ [] }

abbrev alive : Machine Cluster Deployment (LiveState Deployment)
alive = record {
  world = demo;
  env = record {
    initialized = true;
    phase = Phase.ready;
    spec = two;
    state = live_state;
    labels = [];
    marked_for_deletion = false;
    pending = [];
    completed = [];
    completed_order = [];
  };
  pc = at_idle;
  waiting = [];
  labels_dirty = false;
  processed = 0;
  suggested = false;
  published = none;
  history = [];
}

deployment_validators_example :
    let d = new_deployment_kind codecs same decimal show_int (λ c. fake_activities) children full in
    (validate_update patches full d apply_name no_replica alive
      ≡ some (some (new_error (codes "replicas must be >= 1, got 0"))))
    × (validate_update patches full d (codes "blue-green") no_replica alive ≡ some none)
unfolding ◌==◌ show_int lookup
deployment_validators_example =
    deployment_validators codecs same decimal show_int (λ c. fake_activities) children full patches
      no_replica alive refl refl

abbrev two_bytes : Payload
two_bytes = 0 ∷ 2 ∷ 0 ∷ 0 ∷ codes "a"

abbrev apply_command : CommandEnvelope
apply_command = record { request_id = codes "r1"; name = apply_name; payload = two_bytes }

abbrev entity : Entity Cluster Deployment (LiveState Deployment)
entity = record { world = demo; spec = no_deployment; state = live_state; labels = []; memory = [] }

apply_served_example :
    (w : Cluster) × (live : Deployment) × (serve patches
        (demo_kind codecs json-IsFaithful same decimal show_int children full patches)
        apply_command
        entity
      ≡ remember (codes "r1") (ok (digest_of same two_bytes)) (record entity {
        world = w;
        spec = two;
        state = record {
          live = live;
          ready = true;
          desired_digest = digest_of same two_bytes;
          drifted = false;
          heals = 0;
        };
      }))
    × Holds json json-IsFaithful (digest_of same) decimal (deployment_config show_int) full live w
    × (live.image ≡ codes "a")
    × (live.replicas ≡ pos 2)
    × (gap live ≡ 0)
apply_served_example =
    apply_served codecs json-IsFaithful same decimal show_int children full patches apply_command
      entity (record { spec = two }) two_bytes (digest_of same two_bytes) refl refl refl refl
      (ground arith) (record { hook = refl; obeys = unfold lookup in refl })

-- One handler has its outcome and has not returned yet.
abbrev draining : Machine Cluster Deployment (LiveState Deployment)
draining = record {
  world = record demo { objects = (web_key, two_bytes) ∷ [] };
  env = record {
    initialized = true;
    phase = Phase.deleting;
    spec = two;
    state = live_state;
    labels = [];
    marked_for_deletion = true;
    pending = [];
    completed = (codes "r1", record { result = []; err = [] }) ∷ [];
    completed_order = codes "r1" ∷ [];
  };
  pc = at_drain;
  waiting = codes "r1" ∷ [];
  labels_dirty = false;
  processed = 0;
  suggested = false;
  published = none;
  history = [];
}

deployment_deleted_example :
    (n : Machine Cluster Deployment (LiveState Deployment)) × Reach patches full
      (new_deployment_kind codecs same decimal show_int (λ c. fake_activities) children full)
      draining
      n
    × (n.pc ≡ closed completed)
    × (n.env.phase ≡ Phase.deleted)
    × (n.world ≡ record demo {
      objects =
          erase
            (object_key codecs same decimal show_int children full patches)
            ((web_key, two_bytes) ∷ []);
    })
unfolding lookup
deployment_deleted_example =
    deployment_deleted codecs same decimal show_int children full patches draining refl
      ((_, refl), tt) refl

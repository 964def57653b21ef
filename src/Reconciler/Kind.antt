-- ===== src/Reconciler/Kind.antt =====
-- examples/reconciler/main.go, `newDeploymentKind`: the user's kind with its command and its query. The
-- proofs are in the modules below.
pub mod Rollout
pub mod Declared
pub mod Served
pub mod Deleted
use temporal_entity.Base.{ℕ, Bool, List, [], ◌∷◌, Str, codes, ℤ, Result}
use temporal_entity.Entity.Command.{Payload, Codec}
use temporal_entity.Entdefine.Definition.{Definition, handle, handle_query}
use temporal_entity.K8slib.Config.{
  Activities, KindOption, with_ready, with_drifted, with_check, with_tick, with_polling,
  with_can_every,
}
use temporal_entity.K8slib.Digest.{digest_of}
use temporal_entity.K8slib.Kind.{Apply, ApplyRes, new_kind}
use temporal_entity.Reconciler.Deployment.{
  Deployment, no_deployment, has_replicas, differs, check_deployment,
}
use temporal_entity.Reconciler.BlueGreen.{
  BlueGreen, BlueGreenRes, Health, HealthRes, Live, deployment_gvk, blue_green_type, health_type,
  blue_green, health,
}

abbrev pub deployment_options : (ℤ → Str) → List (KindOption Deployment)
deployment_options show =
    with_ready has_replicas
    ∷ with_drifted differs
    ∷ with_check (check_deployment show)
    ∷ with_tick 2000
    ∷ with_polling 200 100
    ∷ with_can_every 2
    ∷ []

-- The codecs of the program's types.
pub record Codecs : Type 0 where
  pub deployment : Codec Deployment
  pub apply : Codec (Apply Deployment)
  pub apply_res : Codec ApplyRes
  pub blue_green : Codec BlueGreen
  pub blue_green_res : Codec BlueGreenRes
  pub health : Codec Health
  pub health_res : Codec HealthRes

module _ {W : Type 0} (json : Codecs) (sha256 : Payload → Str) (decimal : ℕ → Str) (show : ℤ → Str)
    (acts : Bool → Activities W) (children : Str → (W → W × Result Str) → W → W × Result Str)
    (full : Str) where
  unfoldable pub new_deployment_kind : Definition W Deployment Live
  unfolding new_kind handle handle_query blue_green differs check_deployment digest_of
  new_deployment_kind =
      let k =
        new_kind json.deployment json.apply json.apply_res no_deployment (codes "main.Deployment")
          (digest_of sha256) decimal acts full deployment_gvk (deployment_options show) in
      let (d, r) =
        handle (blue_green_type json.blue_green json.blue_green_res) k
          (blue_green json.deployment (acts Bool.false) children full) in
      handle_query (health_type json.health json.health_res) health d

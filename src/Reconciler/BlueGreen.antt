-- ===== src/Reconciler/BlueGreen.antt =====
-- examples/reconciler/main.go: the user's command `BlueGreen`, a saga with a child workflow, and the
-- query `Health`. The proofs are in the modules below.
pub mod Steps
pub mod Switching
use temporal_entity.Base.{
  ℕ, Bool, none, some, List, [], ◌∷◌, ◌++◌, Str, codes, ◌==◌, if◌then◌else◌, Result, ok, err, Check,
  new_error,
}
use temporal_entity.Entity.State.{Snapshot}
use temporal_entity.Entity.Command.{Codec, CommandType}
use temporal_entity.Entdefine.Context.{Mutation, put_spec, Handler}
use temporal_entity.Entdefine.Saga.{Saga, new_saga, step, run}
use temporal_entity.K8slib.Config.{LiveState, Activities}
use temporal_entity.K8slib.Ref.{ObjectRef, ref_id}
use temporal_entity.K8slib.Ops.{apply_object, delete_object}
use temporal_entity.Reconciler.Deployment.{Deployment, no_deployment}

pub record BlueGreen : Type 0 where
  pub new_image : Str

pub record BlueGreenRes : Type 0 where
  pub switched : Str

pub record Health : Type 0 where
  pub nothing : Unit {0}

pub record HealthRes : Type 0 where
  pub ready : Bool
  pub heals : ℕ
  pub drifted : Bool

-- `Validate`
unfoldable pub check_blue_green : BlueGreen → Check
unfolding ◌==◌
check_blue_green b =
    if b.new_image == [] then some (new_error (codes "newImage is required")) else none

abbrev pub deployment_gvk : Str
deployment_gvk = codes "apps/v1/Deployment"

abbrev pub web_ref : ObjectRef
web_ref = record { namespace = codes "prod"; name = codes "web" }

abbrev pub green_ref : ObjectRef
green_ref = record { namespace = codes "prod"; name = codes "web-green" }

abbrev pub Live : Type 0
Live = LiveState Deployment

abbrev pub blue_green_type :
    Codec BlueGreen → Codec BlueGreenRes → CommandType Deployment Live BlueGreen BlueGreenRes
blue_green_type req_codec res_codec = record {
  name = codes "blue-green";
  req_type = codes "main.BlueGreen";
  res_type = codes "main.BlueGreenRes";
  req_codec = req_codec;
  res_codec = res_codec;
  self_validator = some check_blue_green;
  validator = none;
}

abbrev pub health_type :
    Codec Health → Codec HealthRes → CommandType Deployment Live Health HealthRes
health_type req_codec res_codec = record {
  name = codes "health";
  req_type = codes "main.Health";
  res_type = codes "main.HealthRes";
  req_codec = req_codec;
  res_codec = res_codec;
  self_validator = none;
  validator = none;
}

-- The handler of `Health`
abbrev pub health : Snapshot Deployment Live → Health → Result HealthRes
health s q = ok (record { ready = s.state.ready; heals = s.state.heals; drifted = s.state.drifted })

-- What the steps of the saga change: the world, the entity through its `Ctx`, and `warmed`.
pub record Work (W : Type 0) : Type 0 where
  pub world : W
  pub calls : List (Mutation Deployment Live)
  pub warmed : Str

abbrev pub on_world : {W : Type 0} → (W → W × Check) → Work W → Work W × Check
on_world act k = let (w, e) = act k.world in (record k { world = w }, e)

-- `children` is how Temporal runs a child workflow under an id, and `full` the id of the entity's own
-- workflow.
module _ {W : Type 0} (json : Codec Deployment) (acts : Activities W)
    (children : Str → (W → W × Result Str) → W → W × Result Str) (full : Str) where
  -- `WarmupWorkflow`
  unfoldable pub warmup_workflow : Str → W → W × Result Str
  warmup_workflow target w =
      let (v, e) = acts.sleep 200 w in
      (v, elim e [ none ↦ ok (codes "warmed:" ++ target) | some f ↦ err f ])

  -- The forward actions of the steps.
  unfoldable pub provision_green : Deployment → Work W → Work W × Check
  unfolding apply_object
  provision_green green =
      on_world (apply_object json no_deployment acts deployment_gvk green_ref green)

  unfoldable pub remove_green : Work W → Work W × Check
  unfolding delete_object
  remove_green = on_world (delete_object json no_deployment acts deployment_gvk green_ref)

  -- `Get(c, &warmed)`: an error leaves `warmed` alone.
  unfoldable pub keep_warmed : Work W → W × Result Str → Work W × Check
  keep_warmed k (w, ok text) = (record k { world = w; warmed = text }, none)
  keep_warmed k (w, err e) = (record k { world = w }, some e)

  unfoldable pub warm_up : Work W → Work W × Check
  unfolding warmup_workflow keep_warmed
  warm_up k =
      keep_warmed k
        (children (full ++ codes "/warmup") (warmup_workflow (ref_id green_ref)) k.world)

  unfoldable pub switch_traffic : Deployment → Work W → Work W × Check
  unfolding apply_object
  switch_traffic green k =
      on_world (apply_object json no_deployment acts deployment_gvk web_ref green)
        (record k { calls = k.calls ++ put_spec green ∷ [] })

  -- The saga of the handler.
  unfoldable pub blue_green_saga : Deployment → Saga (Work W)
  unfolding provision_green remove_green warm_up switch_traffic
  blue_green_saga green = step (codes "retire-green") remove_green none (
      step (codes "switch-traffic") (switch_traffic green) none (
        step (codes "warmup") warm_up none
          (step (codes "provision-green") (provision_green green) (some remove_green) new_saga)))

  unfoldable pub blue_green_answer :
      Work W × Check → W × List (Mutation Deployment Live) × Result BlueGreenRes
  blue_green_answer (k, some e) = (k.world, k.calls, err e)
  blue_green_answer (k, none) = (k.world, k.calls, ok (record { switched = k.warmed }))

  -- The handler of `BlueGreen`
  unfoldable pub blue_green : Handler W Deployment Live BlueGreen BlueGreenRes
  unfolding blue_green_saga run blue_green_answer
  blue_green w view cmd = blue_green_answer (
      run (blue_green_saga (record view.spec { image = cmd.new_image }))
        (record { world = w; calls = []; warmed = [] }))

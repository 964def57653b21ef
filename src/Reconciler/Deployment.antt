-- ===== src/Reconciler/Deployment.antt =====
-- examples/reconciler/main.go: the user's `Deployment`, what it takes for ready, drifted and valid,
-- and the hook by which the in-memory cluster converges. The proofs are in the modules below.
pub mod Converging
pub mod Recovering
pub mod Repairing
pub mod Up
use temporal_entity.Base.{
  Bool, not, ◌||◌, Option, none, some, [], Str, codes, ◌==◌, ◌++◌, if◌then◌else◌, ℤ, pos, ◌<ℤ◌,
  ◌=ℤ◌, increment, Result, ok, err, Check, new_error,
}
use temporal_entity.Entity.Command.{Payload, Codec}

pub record Deployment : Type 0 where
  pub image : Str
  pub replicas : ℤ
  pub ready_replicas : ℤ

abbrev pub no_deployment : Deployment
no_deployment = record { image = []; replicas = pos 0; ready_replicas = pos 0 }

-- `WithReady`, `WithDrifted` and `WithValidate` of `newDeploymentKind`; `show` is `%d`.
abbrev pub has_replicas : Deployment → Bool
has_replicas live = not (live.ready_replicas <ℤ live.replicas)

unfoldable pub differs : Deployment → Deployment → Bool
unfolding ◌==◌
differs desired live = not (desired.image == live.image) || not (desired.replicas =ℤ live.replicas)

unfoldable pub check_deployment : (ℤ → Str) → Deployment → Check
unfolding ◌==◌
check_deployment show d =
    if d.replicas <ℤ pos 1
    then some (new_error (codes "replicas must be >= 1, got " ++ show d.replicas))
    else if d.image == []
    then some (new_error (codes "image is required"))
    else none

-- One observation of the hook, on the decoded deployment.
abbrev pub advance : Deployment → Deployment
advance d =
    if d.ready_replicas <ℤ d.replicas
    then record d { ready_replicas = increment d.ready_replicas }
    else if d.replicas <ℤ d.ready_replicas
    then record d { ready_replicas = d.replicas }
    else d

-- `out, _ := json.Marshal(d)`: nothing where it fails.
abbrev pub bytes_of : Result Payload → Payload
bytes_of (ok p) = p
bytes_of (err e) = []

-- `cluster.Converge`
unfoldable pub converge : Codec Deployment → Payload → Payload
converge json live = elim (json.unmarshal live) [
  | err e ↦ live
  | ok d ↦ bytes_of (json.marshal (advance d))
]

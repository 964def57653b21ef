-- ===== src/K8slib/Cluster.antt =====
-- examples/reconciler/k8slib/cluster.go: the interface to a cluster, the activities on it, and their
-- registration with a worker. The proofs are in the modules below.
pub mod Registered
use temporal_entity.Base.{
  ℕ, zero, suc, ◌≡◌, Bool, true, false, Option, none, some, List, [], ◌∷◌, ◌++◌, Str, codes, Dict,
  lookup, insert, Error, Result, ok, err, Check, new_error,
}
use temporal_entity.Entity.Command.{Payload}
use temporal_entity.K8slib.Config.{Activities, GetResult}

-- `Cluster`, on a world `W`: a call gets the kind and the id of an object.
pub record ClusterApi (W : Type 0) : Type 0 where
  pub apply : Str → Str → Payload → W → W × Check
  -- the manifest, whether it was found, the error
  pub get : Str → Str → W → W × Payload × Bool × Check
  pub delete : Str → Str → W → W × Check

-- What its documentation asks of an implementation: every call can be repeated, `Apply` is an upsert,
-- `Delete` tolerates that there is nothing, and a `Get` between them tells what is there.
pub record IsIdempotent {W : Type 0} (c : ClusterApi W) : Type 0 where
  pub apply_again :
      (gvk id : Str) (manifest : Payload) (w : W)
      → (c.apply gvk id manifest w).1 ≡ none
      → c.apply gvk id manifest (c.apply gvk id manifest w).0 ≡ c.apply gvk id manifest w
  pub apply_failed :
      (gvk id : Str) (manifest : Payload) (w : W) (e : Error)
      → (c.apply gvk id manifest w).1 ≡ some e
      → (c.apply gvk id manifest w).0 ≡ w
  pub delete_again :
      (gvk id : Str) (w : W)
      → (c.delete gvk id w).1 ≡ none
      → c.delete gvk id (c.delete gvk id w).0 ≡ c.delete gvk id w
  pub delete_failed :
      (gvk id : Str) (w : W) (e : Error)
      → (c.delete gvk id w).1 ≡ some e
      → (c.delete gvk id w).0 ≡ w

abbrev pub apply_activity_name : Str
apply_activity_name = codes "k8s.apply"

abbrev pub get_activity_name : Str
get_activity_name = codes "k8s.get"

abbrev pub delete_activity_name : Str
delete_activity_name = codes "k8s.delete"

-- The methods of `activities`, each with the type that the SDK decodes its arguments by.
pub data Activity (W : Type 0) : Type 0 where
  applies : (Str → Str → Payload → W → W × Check) → Activity W
  gets : (Str → Str → W → W × Result GetResult) → Activity W
  deletes : (Str → Str → W → W × Check) → Activity W

-- Go's pair of a value and an error: the SDK passes on the one or the other.
abbrev pub value_or_error {ℓ} : {A : Type ℓ} → A → Check → Result A
value_or_error a none = ok a
value_or_error a (some e) = err e

module _ {W : Type 0} (cluster : ClusterApi W) where
  -- `activities.Get`
  unfoldable pub get_activity : Str → Str → W → W × Result GetResult
  get_activity gvk id w =
      let (v, manifest, found, e) = cluster.get gvk id w in
      (v, value_or_error (record { manifest = manifest; found = found }) e)

  -- `RegisterActivities`, on the activities that the worker knows.
  unfoldable pub register_activities : Dict (Activity W) → Dict (Activity W)
  unfolding get_activity
  register_activities known = insert delete_activity_name (deletes cluster.delete) (
      insert get_activity_name (gets get_activity)
        (insert apply_activity_name (applies cluster.apply) known))

-- A worker runs an activity by its name. `refuse` is the error of the SDK for a name that it does not
-- know, or whose function takes other arguments.
module _ {W : Type 0} (refuse : Str → Error) (sleep : ℕ → W → W × Check)
    (known : Dict (Activity W)) where
  execute_apply : Str → Str → Payload → W → W × Check
  execute_apply gvk id manifest w = elim (lookup apply_activity_name known) [
    | some (applies f) ↦ f gvk id manifest w
    | _ ↦ (w, some (refuse apply_activity_name))
  ]

  execute_get : Str → Str → W → W × Result GetResult
  execute_get gvk id w = elim (lookup get_activity_name known) [
    | some (gets f) ↦ f gvk id w
    | _ ↦ (w, err (refuse get_activity_name))
  ]

  execute_delete : Str → Str → W → W × Check
  execute_delete gvk id w = elim (lookup delete_activity_name known) [
    | some (deletes f) ↦ f gvk id w
    | _ ↦ (w, some (refuse delete_activity_name))
  ]

  -- What the handlers of a kind run on this worker.
  unfoldable pub worker_activities : Activities W
  unfolding execute_apply execute_get execute_delete
  worker_activities = record {
    apply = execute_apply;
    get = execute_get;
    remove = execute_delete;
    sleep = sleep;
  }

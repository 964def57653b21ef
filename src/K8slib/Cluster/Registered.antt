-- ===== src/K8slib/Cluster/Registered.antt =====
-- examples/reconciler/k8slib/cluster.go: what the handlers run by name, and what `RegisterActivities`
-- registers.
use temporal_entity.Base.{
  ℕ, ◌≡◌, ◌∙◌, some, Str, Dict, lookup, insert, lookup-insert, ◌==◌, Error, Result, Check,
}
use temporal_entity.K8slib.Config.{Activities}
use temporal_entity.K8slib.Cluster.{
  ClusterApi, Activity, applies, gets, deletes, apply_activity_name, get_activity_name,
  delete_activity_name, get_activity, register_activities, execute_apply, execute_get,
  execute_delete, worker_activities,
}

-- The methods of a cluster, as the handlers see them.
abbrev pub direct : {W : Type 0} → ClusterApi W → (ℕ → W → W × Check) → Activities W
direct c sleep = record { apply = c.apply; get = get_activity c; remove = c.delete; sleep = sleep }

module _ {W : Type 0} (c : ClusterApi W) (known : Dict (Activity W)) where
  -- The three registrations, which do not hide one another.
  registered :
      (lookup apply_activity_name (register_activities c known) ≡ some (applies c.apply))
      × (lookup get_activity_name (register_activities c known) ≡ some (gets (get_activity c)))
      × (lookup delete_activity_name (register_activities c known) ≡ some (deletes c.delete))
  unfolding register_activities ◌==◌
  registered =
      let second = insert apply_activity_name (applies c.apply) known in
      let third = insert get_activity_name (gets (get_activity c)) second in
      (
        lookup-insert delete_activity_name apply_activity_name (deletes c.delete) third
            ∙ lookup-insert get_activity_name apply_activity_name (gets (get_activity c)) second
            ∙ lookup-insert apply_activity_name apply_activity_name (applies c.apply) known,
        lookup-insert delete_activity_name get_activity_name (deletes c.delete) third
            ∙ lookup-insert get_activity_name get_activity_name (gets (get_activity c)) second,
        lookup-insert delete_activity_name delete_activity_name (deletes c.delete) third,
      )

  -- On a worker with `RegisterActivities`, whatever it knew before, the activities that the handlers
  -- call by name are the three methods of the cluster, and a `Get` that fails gives its error alone.
  pub worker_activities-register_activities :
      (refuse : Str → Error) (sleep : ℕ → W → W × Check)
      → worker_activities refuse sleep (register_activities c known) ≡ direct c sleep
  unfolding worker_activities execute_apply execute_get execute_delete
  worker_activities-register_activities refuse sleep =
      let (a, g, r) = registered in
      λ i. record {
        apply = λ gvk id manifest w. elim (a i) [
          | some (applies f) ↦ f gvk id manifest w
          | _ ↦ (w, some (refuse apply_activity_name))
        ];
        get = λ gvk id w. elim (g i) [
          | some (gets f) ↦ f gvk id w
          | _ ↦ (w, Result.err (refuse get_activity_name))
        ];
        remove = λ gvk id w. elim (r i) [
          | some (deletes f) ↦ f gvk id w
          | _ ↦ (w, some (refuse delete_activity_name))
        ];
        sleep = sleep;
      }

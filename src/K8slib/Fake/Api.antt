-- ===== src/K8slib/Fake/Api.antt =====
-- examples/reconciler/k8slib/fake/fake.go as an implementation of the interface of cluster.go.
use temporal_entity.Base.{
  ◌≡◌, refl, ◌∙◌, Bool, false, none, some, [], ◌∷◌, Str, arith, Dict, insert, erase, ==_iff, Error,
  Result, ok, err, Check,
}
use temporal_entity.Entity.Command.{Payload}
use temporal_entity.K8slib.Config.{GetResult}
use temporal_entity.K8slib.Cluster.{
  ClusterApi, IsIdempotent, Activity, value_or_error, get_activity, register_activities,
  worker_activities,
}
use temporal_entity.K8slib.Cluster.Registered.{worker_activities-register_activities}
use temporal_entity.K8slib.Fake.{Cluster, key, apply, get, remove, fake_activities}

-- `Get` returns a manifest, whether it was found, and an error.
abbrev as_parts : Cluster × Result GetResult → Cluster × Payload × Bool × Check
as_parts (c, ok got) = (c, got.manifest, got.found, none)
as_parts (c, err e) = (c, [], false, some e)

abbrev pub fake_cluster : ClusterApi Cluster
fake_cluster = record {
  apply = λ gvk id manifest c. apply gvk id manifest c;
  get = λ gvk id c. as_parts (get gvk id c);
  delete = λ gvk id c. remove gvk id c;
}

module _ {ℓ} {V : Type ℓ} where
  insert_again : (k : Str) (v : V) (m : Dict V) → insert k v (insert k v m) ≡ insert k v m
  unfolding insert
  insert_again k v [] = ground (arith, ==_iff k k)
  insert_again k v ((j, u) ∷ m) = ground (arith, insert_again k v m, ==_iff j k, ==_iff k k)

  erase_again : (k : Str) (m : Dict V) → erase k (erase k m) ≡ erase k m
  unfolding erase
  erase_again k [] = refl
  erase_again k ((j, u) ∷ m) = ground (arith, erase_again k m, ==_iff j k)

-- The in-memory cluster is idempotent: an `Apply` or a `Delete` that succeeded does the same again,
-- and one that fails changes nothing.
pub fake-IsIdempotent : IsIdempotent fake_cluster
unfolding apply remove
fake-IsIdempotent = record {
  apply_again = λ gvk id manifest c h. ground (arith, insert_again (key gvk id) manifest c.objects);
  apply_failed = λ gvk id manifest c e h. ground arith;
  delete_again = λ gvk id c h. ground (arith, erase_again (key gvk id) c.objects);
  delete_failed = λ gvk id c e h. ground arith;
}

get_activity-fake : (gvk id : Str) (c : Cluster) → get_activity fake_cluster gvk id c ≡ get gvk id c
unfolding get_activity
get_activity-fake gvk id c = whole (get gvk id c)
  where
    whole :
        (r : Cluster × Result GetResult)
        → (let (v, manifest, found, e) = as_parts r in
            (v, value_or_error (record { manifest = manifest; found = found }) e))
          ≡ r
    whole (v, ok got) = refl
    whole (v, err e) = refl

-- On a worker with the activities of the in-memory cluster, the handlers run `fake_activities`.
pub worker_activities-fake :
    (refuse : Str → Error) (known : Dict (Activity Cluster))
    → worker_activities refuse (λ n c. (c, none)) (register_activities fake_cluster known)
      ≡ fake_activities
worker_activities-fake refuse known =
    worker_activities-register_activities fake_cluster known refuse (λ n c. (c, none))
    ∙ (λ i. record fake_activities { get = λ gvk id c. get_activity-fake gvk id c i })

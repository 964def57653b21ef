-- ===== src/K8slib/Fake.antt =====
-- examples/reconciler/k8slib/fake/fake.go: the in-memory cluster. The proofs are in the module below.
pub mod Serving
pub mod Api
use temporal_entity.Base.{
  if◌then◌else◌, ℕ, Bool, true, false, Option, none, some, List, [], ◌∷◌, ◌++◌, Str, codes, Dict,
  lookup, insert, erase, has, Error, Result, ok, err, Check,
}
use temporal_entity.Entity.Command.{Payload}
use temporal_entity.K8slib.Config.{Activities, GetResult}

pub record Cluster : Type 0 where
  -- the live manifests
  pub objects : Dict Payload
  pub converge : Option (Payload → Payload)
  -- the errors to fail with; a nil one is stored as such
  pub fail_apply : Dict Check
  pub fail_delete : Dict Check

-- `New`
abbrev pub new_cluster : Cluster
new_cluster = record { objects = []; converge = none; fail_apply = []; fail_delete = [] }

abbrev pub key : Str → Str → Str
key gvk id = gvk ++ (b'|' ∷ id)

-- A map of errors at a key, where a missing one is nil.
abbrev pub error_at : Str → Dict Check → Check
error_at k errors = elim (lookup k errors) [ none ↦ none | some e ↦ e ]

-- `FailApplyWith` and `FailDeleteWith`
unfoldable pub fail_apply_with : Str → Str → Check → Cluster → Cluster
fail_apply_with gvk id e c = record c { fail_apply = insert (key gvk id) e c.fail_apply }

unfoldable pub fail_delete_with : Str → Str → Check → Cluster → Cluster
fail_delete_with gvk id e c = record c { fail_delete = insert (key gvk id) e c.fail_delete }

-- `Apply`
unfoldable pub apply : Str → Str → Payload → Cluster → Cluster × Check
apply gvk id manifest c = elim (error_at (key gvk id) c.fail_apply) [
  | some e ↦ (c, some e)
  | none ↦ (record c { objects = insert (key gvk id) manifest c.objects }, none)
]

abbrev pub converged : Cluster → Payload → Payload
converged c live = elim c.converge [ none ↦ live | some fn ↦ fn live ]

-- `Get`
unfoldable pub get : Str → Str → Cluster → Cluster × Result GetResult
get gvk id c = elim (lookup (key gvk id) c.objects) [
  | none ↦ (c, ok (record { manifest = []; found = false }))
  | some live ↦ (
    record c { objects = insert (key gvk id) (converged c live) c.objects },
    ok (record { manifest = converged c live; found = true }),
  )
]

-- `Delete`
unfoldable pub remove : Str → Str → Cluster → Cluster × Check
remove gvk id c = elim (error_at (key gvk id) c.fail_delete) [
  | some e ↦ (c, some e)
  | none ↦ (record c { objects = erase (key gvk id) c.objects }, none)
]

-- `Corrupt` and `Vanish`
unfoldable pub corrupt : Str → Str → Payload → Cluster → Cluster
corrupt gvk id manifest c =
    if has (key gvk id) c.objects
    then record c { objects = insert (key gvk id) manifest c.objects }
    else c

unfoldable pub vanish : Str → Str → Cluster → Cluster
vanish gvk id c = record c { objects = erase (key gvk id) c.objects }

-- The activities on this cluster, where a sleep always ends.
abbrev pub fake_activities : Activities Cluster
fake_activities = record {
  apply = λ gvk id manifest c. apply gvk id manifest c;
  get = λ gvk id c. get gvk id c;
  remove = λ gvk id c. remove gvk id c;
  sleep = λ n c. (c, none);
}

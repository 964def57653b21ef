-- ===== src/K8slib/Ops.antt =====
-- examples/reconciler/k8slib/ops.go: the cluster operations for commands that a user declares.
use temporal_entity.Base.{
  Bool, true, false, none, some, ◌++◌, Str, codes, ok, err, Check, wrap, if◌then◌else◌,
}
use temporal_entity.Entity.Command.{Codec}
use temporal_entity.K8slib.Config.{Activities}
use temporal_entity.K8slib.Ref.{ObjectRef, ref_id}

-- `%v` on a reference
abbrev show_ref : ObjectRef → Str
show_ref r = codes "{" ++ (r.namespace ++ (codes " " ++ (r.name ++ codes "}")))

-- The prefix of an error: what was tried, the kind and the reference.
abbrev attempt_at : Str → Str → ObjectRef → Str
attempt_at what gvk ref = what ++ (codes " " ++ (gvk ++ (codes " " ++ show_ref ref)))

module _ {W T : Type 0} (json : Codec T) (nothing : T) (acts : Activities W) (gvk : Str)
    (ref : ObjectRef) where
  -- `ApplyObject`
  unfoldable pub apply_object : T → W → W × Check
  apply_object obj w = elim (json.marshal obj) [
    | err e ↦ (w, some (wrap (attempt_at (codes "encode") gvk ref) e))
    | ok manifest ↦ acts.apply gvk (ref_id ref) manifest w
  ]

  -- `GetObject`: the object, whether it was found, the error
  unfoldable pub get_object : W → W × T × Bool × Check
  get_object w =
      let (v, r) = acts.get gvk (ref_id ref) w in
      elim r [
        | err e ↦ (v, nothing, false, some e)
        | ok got ↦
            if got.found
            then elim (json.unmarshal got.manifest) [
              | err e ↦ (v, nothing, true, some (wrap (attempt_at (codes "decode") gvk ref) e))
              | ok obj ↦ (v, obj, true, none)
            ]
            else (v, nothing, false, none)
      ]

  -- `DeleteObject`
  unfoldable pub delete_object : W → W × Check
  delete_object w = acts.remove gvk (ref_id ref) w

-- ===== src/K8slib/Kind/Declared.antt =====
-- What `NewKind` declares.
use temporal_entity.Base.{
  ℕ, ◌≡◌, refl, Bool, some, List, [], ◌∷◌, ◌++◌, Str, codes, ok, err, lookup, insert,
}
use temporal_entity.Entity.State.{Snapshot}
use temporal_entity.Entity.Command.{Payload, Codec}
use temporal_entity.Entdefine.Typed.{decode_error, validate_self, validate_with}
use temporal_entity.Entdefine.Definition.{CommandImpl, register}
use temporal_entity.Entdefine.Definition.Registry.{verdict, validators_in_order}
use temporal_entity.K8slib.Config.{LiveState, Activities, KindOption, new_config}
use temporal_entity.K8slib.Kind.{
  Apply, ApplyRes, apply_name, apply_type, apply_handler, base_kind, check_spec, new_kind,
}

module _ {W T : Type 0} (json : Codec T) (req_codec : Codec (Apply T)) (res_codec : Codec ApplyRes)
    (nothing : T) (shown : Str) (digest : Payload → Str) (decimal : ℕ → Str)
    (acts : Bool → Activities W) (full : Str) where
  -- Whatever its options, a kind registers without an error under the name k8s/ and its gvk.
  pub new_kind-registers :
      (gvk : Str) (opts : List (KindOption T)) (registry : List Str)
      → register
          (new_kind json req_codec res_codec nothing shown digest decimal acts full gvk opts)
          registry
        ≡ ok (registry ++ (codes "k8s/" ++ (new_config gvk opts).gvk) ∷ [])
  unfolding new_kind register lookup insert
  new_kind-registers gvk opts registry = refl

  -- Whatever its options, a kind has the apply command, whose validator decodes the request and then
  -- runs the check of the configuration.
  pub new_kind-checks :
      (gvk : Str) (opts : List (KindOption T)) (s : Snapshot T (LiveState T)) (payload : Payload)
      → (impl : CommandImpl W T (LiveState T)) × (lookup apply_name
            (new_kind json req_codec res_codec nothing shown digest decimal acts full gvk
              opts).commands
          ≡ some impl)
        × (verdict impl s payload ≡ elim (req_codec.unmarshal payload) [
          | err e ↦ some (
              decode_error
                (apply_type json req_codec res_codec nothing shown digest decimal acts full)
                e)
          | ok cmd ↦
              check_spec json req_codec res_codec nothing shown digest decimal acts full
                (new_config gvk opts)
                s
                cmd
        ])
  unfolding new_kind lookup validate_self validate_with
  new_kind-checks gvk opts s payload =
      let cfg = new_config gvk opts in
      let (impl, found, says) =
        validators_in_order
          (apply_type json req_codec res_codec nothing shown digest decimal acts full)
          (base_kind json req_codec res_codec nothing shown digest decimal acts full cfg)
          (apply_handler json req_codec res_codec nothing shown digest decimal acts full cfg)
          (check_spec json req_codec res_codec nothing shown digest decimal acts full cfg) s payload
          refl in
      (impl, found, says)

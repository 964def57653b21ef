-- ===== src/Reconciler/Kind/Declared.antt =====
-- What `newDeploymentKind` of examples/reconciler/main.go declares.
use temporal_entity.Base.{
  arith, ap, has, Dict, Check, and_then, pos, ◌<ℤ◌, ◌==◌, if◌then◌else◌, new_error, wrap, ◌∙◌, none,
  some, err, lookup, ℕ, ◌≡◌, refl, Bool, List, [], ◌∷◌, ◌++◌, Str, codes, ℤ, lookup, insert, Result,
  ok,
}
use temporal_entity.Entity.Command.{Payload, CommandInfo, Codec}
use temporal_entity.Entity.State.{set_labels_command_name}
use temporal_entity.Wire.{UpdateArgs, snapshot}
use temporal_entity.Entdefine.Loop.{Machine, validate_update, validate_command}
use temporal_entity.Entdefine.Definition.{register, command_infos, query_infos}
use temporal_entity.K8slib.Config.{Activities}
use temporal_entity.Entity.State.{Snapshot}
use temporal_entity.Entdefine.Definition.{Definition, CommandImpl, command_impl}
use temporal_entity.Entdefine.Definition.Registry.{verdict}
use temporal_entity.Entdefine.Typed.{decode_error, validate_self, validate_with, base_validate}
use temporal_entity.K8slib.Config.{new_config}
use temporal_entity.K8slib.Digest.{digest_of}
use temporal_entity.K8slib.Kind.{Apply, apply_name, apply_type, check_spec, new_kind}
use temporal_entity.K8slib.Kind.Declared.{new_kind-checks}
use temporal_entity.Reconciler.Deployment.{Deployment, no_deployment, check_deployment}
use temporal_entity.Reconciler.BlueGreen.{
  BlueGreen, Live, blue_green_type, check_blue_green, deployment_gvk, blue_green,
}
use temporal_entity.Reconciler.Kind.{deployment_options, Codecs, new_deployment_kind}

abbrev info : Str → Str → Str → CommandInfo
info name req res = record { name = name; req_type = req; res_type = res }

module _ {W : Type 0} (json : Codecs) (sha256 : Payload → Str) (decimal : ℕ → Str) (show : ℤ → Str)
    (acts : Bool → Activities W) (children : Str → (W → W × Result Str) → W → W × Result Str)
    (full : Str) where
  -- The kind of the demonstration registers without an error under its own name, with the commands
  -- apply and blue-green and the query health, each described by the names of its types.
  pub deployment_kind_declares :
      (registry : List Str)
      → let d = new_deployment_kind json sha256 decimal show acts children full in
        (register d registry ≡ ok (registry ++ codes "k8s/apps/v1/Deployment" ∷ []))
        × (command_infos d
            ≡ info (codes "apply") (codes "k8slib.Apply[main.Deployment]") (codes "k8slib.ApplyRes")
              ∷ info (codes "blue-green") (codes "main.BlueGreen") (codes "main.BlueGreenRes")
              ∷ [])
        × (query_infos d
            ≡ info (codes "health") (codes "main.Health") (codes "main.HealthRes") ∷ [])
  unfolding new_deployment_kind register command_infos query_infos lookup insert
  deployment_kind_declares registry = (refl, refl, refl)

  abbrev kind_of_apply : Definition W Deployment Live
  kind_of_apply =
      new_kind json.deployment json.apply json.apply_res no_deployment (codes "main.Deployment")
        (digest_of sha256) decimal acts full deployment_gvk (deployment_options show)

  pub lookup-apply :
      lookup apply_name (new_deployment_kind json sha256 decimal show acts children full).commands
      ≡ lookup apply_name kind_of_apply.commands
  unfolding new_deployment_kind lookup insert new_kind
  lookup-apply = refl

  lookup-blue_green :
      lookup
        (codes "blue-green")
        (new_deployment_kind json sha256 decimal show acts children full).commands
      ≡ some (
          command_impl
            (blue_green_type json.blue_green json.blue_green_res)
            (blue_green json.deployment (acts Bool.false) children full))
  unfolding new_deployment_kind lookup insert
  lookup-blue_green = refl

  -- What the two commands say of a decoded payload.
  abbrev pub apply_verdict : Result (Apply Deployment) → Check
  apply_verdict (err e) = some (wrap (codes "decode apply request") e)
  apply_verdict (ok cmd) =
      if cmd.spec.replicas <ℤ pos 1
      then some (new_error (codes "replicas must be >= 1, got " ++ show cmd.spec.replicas))
      else if cmd.spec.image == []
      then some (new_error (codes "image is required"))
      else none

  abbrev pub blue_green_verdict : Result BlueGreen → Check
  blue_green_verdict (err e) = some (wrap (codes "decode blue-green request") e)
  blue_green_verdict (ok cmd) =
      if cmd.new_image == [] then some (new_error (codes "newImage is required")) else none

  -- What an update of a declared name meets, if it is neither refused nor answered at once.
  validated :
      (patches : Codec (Dict Str)) (args : UpdateArgs) (m : Machine W Deployment Live) (name : Str)
      (impl : CommandImpl W Deployment Live)
      → (name == set_labels_command_name) ≡ Bool.false
      → lookup name (new_deployment_kind json sha256 decimal show acts children full).commands
        ≡ some impl
      → m.env.marked_for_deletion ≡ Bool.false
      → has args.request_id m.env.completed ≡ Bool.false
      → validate_update patches full
          (new_deployment_kind json sha256 decimal show acts children full)
          name
          args
          m
        ≡ some (verdict impl (snapshot m.env) args.payload)
  unfolding validate_update validate_command
  validated patches args m name impl declared found alive fresh =
      ground (arith, declared, found, alive, fresh)

  says_apply :
      (s : Snapshot Deployment Live) (r : Result (Apply Deployment))
      → (elim r [
        | err e ↦ some (
            decode_error
              (apply_type json.deployment json.apply json.apply_res no_deployment
                (codes "main.Deployment")
                (digest_of sha256)
                decimal
                acts
                full)
              e)
        | ok cmd ↦
            check_spec json.deployment json.apply json.apply_res no_deployment
              (codes "main.Deployment")
              (digest_of sha256)
              decimal
              acts
              full
              (new_config deployment_gvk (deployment_options show))
              s
              cmd
      ])
        ≡ apply_verdict r
  unfolding decode_error new_config check_deployment
  says_apply s (err e) = refl
  says_apply s (ok cmd) = refl

  and_then_nil : (c : Check) → and_then c none ≡ c
  and_then_nil none = refl
  and_then_nil (some e) = refl

  says_blue_green :
      (s : Snapshot Deployment Live) (r : Result BlueGreen)
      → (elim r [
        | err e ↦ some (decode_error (blue_green_type json.blue_green json.blue_green_res) e)
        | ok req ↦
            and_then
              (validate_self (blue_green_type json.blue_green json.blue_green_res) req)
              (validate_with (blue_green_type json.blue_green json.blue_green_res) s req)
      ])
        ≡ blue_green_verdict r
  unfolding decode_error validate_self validate_with check_blue_green
  says_blue_green s (err e) = refl
  says_blue_green s (ok cmd) = and_then_nil _

  -- On an entity of the kind that is not marked for deletion, an update whose request id has no
  -- recorded outcome is accepted as follows: one of apply exactly if its payload decodes to a spec with
  -- at least one replica and an image, and one of blue-green exactly if its payload decodes to a
  -- request with a new image; otherwise the error is that of the decoding or of the check that failed.
  pub deployment_validators :
      (patches : Codec (Dict Str)) (args : UpdateArgs) (m : Machine W Deployment Live)
      → m.env.marked_for_deletion ≡ Bool.false
      → has args.request_id m.env.completed ≡ Bool.false
      → let d = new_deployment_kind json sha256 decimal show acts children full in
        (validate_update patches full d apply_name args m
          ≡ some (apply_verdict (json.apply.unmarshal args.payload)))
        × (validate_update patches full d (codes "blue-green") args m
            ≡ some (blue_green_verdict (json.blue_green.unmarshal args.payload)))
  deployment_validators patches args m alive fresh =
      let s = snapshot m.env in
      let (a, found, says) =
        new_kind-checks json.deployment json.apply json.apply_res no_deployment
          (codes "main.Deployment") (digest_of sha256) decimal acts full deployment_gvk
          (deployment_options show) s args.payload in
      (
        validated patches args m apply_name a (unfold ◌==◌ in refl) (lookup-apply ∙ found) alive
              fresh
            ∙ ap (λ v. some v) (says ∙ says_apply s (json.apply.unmarshal args.payload)),
        validated patches args m (codes "blue-green")
              (command_impl (blue_green_type json.blue_green json.blue_green_res)
                (blue_green json.deployment (acts Bool.false) children full))
              (unfold ◌==◌ in refl) lookup-blue_green alive fresh
            ∙ (unfold command_impl in
                unfold base_validate in
                ap (λ v. some v) (says_blue_green s (json.blue_green.unmarshal args.payload))),
      )

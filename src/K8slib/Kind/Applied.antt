-- ===== src/K8slib/Kind/Applied.antt =====
-- The apply command and the finalizer that `NewKind` declares, as the entity runs them.
use temporal_entity.Base.{
  ℕ, ◌≡◌, refl, Bool, false, none, some, List, [], ◌∷◌, Str, Result, ok, lookup, insert,
}
use temporal_entity.Entity.Command.{Payload, Codec}
use temporal_entity.Entdefine.Context.{View, Mutation, put_spec, put_state}
use temporal_entity.Entdefine.Typed.{exec_command, encode_result}
use temporal_entity.Entdefine.Definition.{CommandImpl}
use temporal_entity.K8slib.Config.{LiveState, Activities, Config, KindOption, new_config}
use temporal_entity.K8slib.Handlers.{apply_and_wait_ready, delete_and_wait_gone}
use temporal_entity.K8slib.Kind.{
  Apply, ApplyRes, apply_name, apply_type, apply_handler, apply_answer, finalize_kind, new_kind,
}

module _ {W T : Type 0} (json : Codec T) (req_codec : Codec (Apply T)) (res_codec : Codec ApplyRes)
    (nothing : T) (shown : Str) (digest : Payload → Str) (decimal : ℕ → Str)
    (acts : Bool → Activities W) (full : Str) where
  -- Its closure.
  abbrev pub exec_apply :
      Config T
      → W
      → View T (LiveState T)
      → Payload
      → W × List (Mutation T (LiveState T)) × Result Payload
  exec_apply cfg =
      exec_command (apply_type json req_codec res_codec nothing shown digest decimal acts full)
        (apply_handler json req_codec res_codec nothing shown digest decimal acts full cfg)

  pub new_kind-executes :
      (gvk : Str) (opts : List (KindOption T))
      → (impl : CommandImpl W T (LiveState T)) × (lookup apply_name
            (new_kind json req_codec res_codec nothing shown digest decimal acts full gvk
              opts).commands
          ≡ some impl)
        × (impl.exec ≡ exec_apply (new_config gvk opts))
  unfolding new_kind lookup insert
  new_kind-executes gvk opts = (_, refl, refl)

  pub exec_apply-ok :
      (cfg : Config T) (view : View T (LiveState T)) (payload answer : Payload) (cmd : Apply T)
      (st : LiveState T) (w v : W)
      → req_codec.unmarshal payload ≡ ok cmd
      → apply_and_wait_ready json nothing digest decimal (acts false) cfg full cmd.spec w
        ≡ (v, st, none)
      → res_codec.marshal (record { digest = st.desired_digest; ready = st.ready }) ≡ ok answer
      → exec_apply cfg w view payload ≡ (v, put_spec cmd.spec ∷ put_state st ∷ [], ok answer)
  unfolding exec_command apply_handler apply_answer encode_result
  exec_apply-ok cfg view payload answer cmd st w v decoded applied answered =
      rw (decoded, exec_command) (rw (applied, answered) refl)

  pub new_kind-finalizes :
      (gvk : Str) (opts : List (KindOption T))
      → (new_kind json req_codec res_codec nothing shown digest decimal acts full gvk opts).finalize
        ≡ some (λ w st.
          let (v, c) =
            delete_and_wait_gone json nothing digest decimal
              (acts false)
              (new_config gvk opts)
              full
              w in
          (v, st, c))
  unfolding new_kind finalize_kind lookup insert
  new_kind-finalizes gvk opts = refl

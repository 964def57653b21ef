-- ===== src/K8slib/Kind.antt =====
-- examples/reconciler/k8slib/k8slib.go, `NewKind`: a kind of resource as a definition. The proofs are
-- in the modules below.
pub mod Declared
pub mod Applied
use temporal_entity.Base.{
  ℕ, Bool, true, false, Option, none, some, List, [], ◌∷◌, ◌++◌, Str, codes, Error, Result, ok, err,
  Check,
}
use temporal_entity.Entity.State.{Snapshot}
use temporal_entity.Entity.Command.{Payload, Codec, CommandType, CommandName}
use temporal_entity.Entdefine.Context.{View, Mutation, put_state, put_spec, Handler}
use temporal_entity.Entdefine.Definition.{
  Definition, new_definition, with_init, with_finalize, with_reconcile_every,
  with_search_attributes, with_force_can_every, handle, validate,
}
use temporal_entity.K8slib.Config.{LiveState, Activities, Config, KindOption, new_config}
use temporal_entity.K8slib.Handlers.{apply_and_wait_ready, reconcile_drift, delete_and_wait_gone}

-- `Apply` and `ApplyRes`
pub record Apply (T : Type 0) : Type 0 where
  pub spec : T

pub record ApplyRes : Type 0 where
  pub digest : Str
  pub ready : Bool

abbrev pub apply_name : CommandName
apply_name = codes "apply"

-- The codecs of the user's type and of the command; `shown` is the user's type as `%T` prints it; the activities under a context that is cancelled
-- or not.
module _ {W T : Type 0} (json : Codec T) (req_codec : Codec (Apply T)) (res_codec : Codec ApplyRes)
    (nothing : T) (shown : Str) (digest : Payload → Str) (decimal : ℕ → Str)
    (acts : Bool → Activities W) (full : Str) where
  abbrev pub apply_type : CommandType T (LiveState T) (Apply T) ApplyRes
  apply_type = record {
    name = apply_name;
    req_type = codes "k8slib.Apply[" ++ (shown ++ codes "]");
    res_type = codes "k8slib.ApplyRes";
    req_codec = req_codec;
    res_codec = res_codec;
    self_validator = none;
    validator = none;
  }

  apply_answer :
      Apply T → W × LiveState T × Check → W × List (Mutation T (LiveState T)) × Result ApplyRes
  apply_answer cmd (w, st, some e) = (w, put_spec cmd.spec ∷ [], err e)
  apply_answer cmd (w, st, none) = (
    w,
    put_spec cmd.spec ∷ put_state st ∷ [],
    ok (record { digest = st.desired_digest; ready = st.ready }),
  )

  -- The handler of the apply command.
  unfoldable pub apply_handler : Config T → Handler W T (LiveState T) (Apply T) ApplyRes
  unfolding apply_and_wait_ready apply_answer
  apply_handler cfg w view cmd =
      apply_answer cmd
        (apply_and_wait_ready json nothing digest decimal (acts false) cfg full cmd.spec w)

  -- Its kind-level validator.
  abbrev pub check_spec : Config T → Snapshot T (LiveState T) → Apply T → Check
  check_spec cfg s cmd = elim cfg.check [ none ↦ none | some fn ↦ fn cmd.spec ]

  finalize_kind : Config T → W → LiveState T → W × LiveState T × Check
  unfolding delete_and_wait_gone
  finalize_kind cfg w st =
      let (v, c) = delete_and_wait_gone json nothing digest decimal (acts false) cfg full w in
      (v, st, c)

  -- The definition before its command.
  base_kind : Config T → Definition W T (LiveState T)
  unfolding new_definition apply_and_wait_ready reconcile_drift finalize_kind
  base_kind cfg = new_definition (codes "k8s/" ++ cfg.gvk) (
      with_init (λ w cancelled desired.
        apply_and_wait_ready json nothing digest decimal (acts cancelled) cfg full desired w)
      ∷ with_finalize (finalize_kind cfg)
      ∷ with_reconcile_every cfg.reconcile_every
          (λ w view. reconcile_drift json nothing digest decimal (acts false) cfg full w view)
      ∷ with_search_attributes cfg.search_attrs
      ∷ with_force_can_every cfg.force_can_every
      ∷ [])

  -- `NewKind`
  unfoldable pub new_kind : Str → List (KindOption T) → Definition W T (LiveState T)
  unfolding base_kind new_config handle validate apply_handler
  new_kind gvk opts =
      let cfg = new_config gvk opts in
      let (d, r) = handle apply_type (base_kind cfg) (apply_handler cfg) in
      validate apply_type r (check_spec cfg) d

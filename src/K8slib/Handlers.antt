-- ===== src/K8slib/Handlers.antt =====
-- examples/reconciler/k8slib/k8slib.go: the universal handlers of a kind, `applyAndWaitReady`,
-- `reconcileDrift` and `deleteAndWaitGone`.
use temporal_entity.Base.{
  ℕ, zero, suc, ◌+◌, Bool, true, false, not, none, some, List, [], ◌∷◌, ◌++◌, ◌==◌, Str, codes,
  Error, Result, ok, err, Check, wrap, new_error, if◌then◌else◌,
}
use temporal_entity.Entity.State.{Phase}
use temporal_entity.Entity.Command.{Payload, Codec}
use temporal_entity.Entdefine.Context.{View, Mutation, put_state}
use temporal_entity.K8slib.Config.{LiveState, GetResult, Activities, Config, resource_id}

-- What one look at the cluster says.
pub data Look (T : Type 0) : Type 0 where
  broken : Error → Look T
  settled waiting : LiveState T → Look T

abbrev pub is_ready_phase : Phase → Bool
is_ready_phase Phase.ready = true
is_ready_phase _ = false

-- `json` is `encoding/json` at the user's type, `nothing` its zero value, `digest` is `digestOf`,
-- `decimal` is the verb `%d`, and `full` the id of the workflow.
module _ {W T : Type 0} (json : Codec T) (nothing : T) (digest : Payload → Str) (decimal : ℕ → Str)
    (acts : Activities W) (cfg : Config T) (full : Str) where
  unfoldable pub own_id : Str
  unfolding resource_id
  own_id = resource_id cfg.gvk full

  abbrev pub is_live_ready : T → Bool
  is_live_ready live = elim cfg.is_ready [ none ↦ true | some fn ↦ fn live ]

  -- One look of `applyAndWaitReady` after its `get`.
  unfoldable pub look : Result GetResult → LiveState T → Look T
  look (err e) st = broken (wrap (codes "get") e)
  look (ok got) st =
      if got.found
      then elim (json.unmarshal got.manifest) [
        | err e ↦ broken (wrap (codes "decode live") e)
        | ok live ↦
            if is_live_ready live
            then settled (record st { live = live; ready = true })
            else waiting (record st { live = live })
      ]
      else waiting st

  pub not_ready_error : Error
  unfolding own_id
  not_ready_error = new_error (
      codes "resource "
      ++ (cfg.gvk
          ++ (codes "/"
              ++ (own_id
                  ++ (codes " not ready after "
                      ++ (decimal cfg.poll_attempts ++ codes " attempts"))))))

  -- The rest of an attempt; `continue` is the loop from the next one on.
  unfoldable pub after_look :
      LiveState T
      → W
      → Look T
      → (LiveState T → W → W × LiveState T × Check)
      → W × LiveState T × Check
  after_look st w (broken e) continue = (w, st, some e)
  after_look st w (settled st') continue = (w, st', none)
  after_look st w (waiting st') continue =
      let (u, c) = acts.sleep cfg.poll_interval w in
      elim c [ some e ↦ (u, st', some e) | none ↦ continue st' u ]

  -- Its polling loop, with the number of attempts that are left.
  unfoldable pub poll_ready : ℕ → LiveState T → W → W × LiveState T × Check
  unfolding look after_look not_ready_error own_id
  poll_ready zero st w = (w, st, some not_ready_error)
  poll_ready (suc left) st w =
      let (v, r) = acts.get cfg.gvk own_id w in
      after_look st v (look r st) (λ st' u. poll_ready left st' u)

  abbrev pub no_state : LiveState T
  no_state = record {
    live = nothing;
    ready = false;
    desired_digest = [];
    drifted = false;
    heals = 0;
  }

  -- `applyAndWaitReady` after the apply activity
  unfoldable pub await_ready : Payload → W × Check → W × LiveState T × Check
  unfolding poll_ready
  await_ready manifest (w, some e) = (w, no_state, some (wrap (codes "apply") e))
  await_ready manifest (w, none) =
      poll_ready cfg.poll_attempts (record no_state { desired_digest = digest manifest }) w

  -- `applyAndWaitReady` on the encoded object
  unfoldable pub apply_encoded : Result Payload → W → W × LiveState T × Check
  unfolding await_ready own_id
  apply_encoded (err e) w = (w, no_state, some (wrap (codes "encode desired") e))
  apply_encoded (ok manifest) w = await_ready manifest (acts.apply cfg.gvk own_id manifest w)

  -- `applyAndWaitReady`
  unfoldable pub apply_and_wait_ready : T → W → W × LiveState T × Check
  unfolding apply_encoded
  apply_and_wait_ready desired w = apply_encoded (json.marshal desired) w

  -- Does the live object differ from the desired one?
  unfoldable pub compare_live : T → T → Payload → Result Bool
  unfolding ◌==◌
  compare_live desired live manifest = elim cfg.is_drifted [
    | some fn ↦ ok (fn desired live)
    | none ↦ elim (json.marshal desired) [
      | err e ↦ err e
      | ok m ↦ ok (not (digest m == digest manifest))
    ]
  ]

  -- The end of a healing.
  unfoldable pub healed_or_failed :
      LiveState T → W × LiveState T × Check → W × List (Mutation T (LiveState T)) × Check
  healed_or_failed st (w, healed, some e) =
      (w, put_state (record st { drifted = true }) ∷ [], some (wrap (codes "heal") e))
  healed_or_failed st (w, healed, none) =
      (w, put_state (record healed { heals = st.heals + 1 }) ∷ [], none)

  -- The second half of `reconcileDrift`, from the verdict on.
  unfoldable pub settle_drift :
      T → Bool → LiveState T → W → W × List (Mutation T (LiveState T)) × Check
  unfolding apply_and_wait_ready healed_or_failed
  settle_drift desired false st w = (w, put_state (record st { drifted = false }) ∷ [], none)
  settle_drift desired true st w = healed_or_failed st (apply_and_wait_ready desired w)

  -- `reconcileDrift` from the verdict on a live object on
  unfoldable pub reconcile_compared :
      View T (LiveState T) → T → Result Bool → W → W × List (Mutation T (LiveState T)) × Check
  unfolding settle_drift
  reconcile_compared view live (err e) w =
      (w, put_state (record view.state { live = live }) ∷ [], some e)
  reconcile_compared view live (ok drifted) w =
      settle_drift view.spec drifted (record view.state { live = live }) w

  -- `reconcileDrift` after the decoding of the live object
  unfoldable pub reconcile_decoded :
      View T (LiveState T) → Payload → Result T → W → W × List (Mutation T (LiveState T)) × Check
  unfolding reconcile_compared compare_live
  reconcile_decoded view manifest (err e) w = (w, [], some (wrap (codes "decode live") e))
  reconcile_decoded view manifest (ok live) w =
      reconcile_compared view live (compare_live view.spec live manifest) w

  -- `reconcileDrift` after its `get`
  unfoldable pub reconcile_got :
      View T (LiveState T) → Result GetResult → W → W × List (Mutation T (LiveState T)) × Check
  unfolding reconcile_decoded settle_drift
  reconcile_got view (err e) w = (w, [], some (wrap (codes "get") e))
  reconcile_got view (ok got) w =
      if got.found
      then reconcile_decoded view got.manifest (json.unmarshal got.manifest) w
      else settle_drift view.spec true view.state w

  -- `reconcileDrift`
  unfoldable pub reconcile_drift :
      W → View T (LiveState T) → W × List (Mutation T (LiveState T)) × Check
  unfolding reconcile_got own_id
  reconcile_drift w view =
      if is_ready_phase view.phase
      then (let (v, r) = acts.get cfg.gvk own_id w in reconcile_got view r v)
      else (w, [], none)

  still_present_error : Error
  unfolding own_id
  still_present_error = new_error (
      codes "resource "
      ++ (cfg.gvk ++ (codes "/" ++ (own_id ++ codes " still present after delete"))))

  -- An attempt of `deleteAndWaitGone` after its `get`; `continue` is the loop from the next one on.
  unfoldable pub after_check : W → Result GetResult → (W → W × Check) → W × Check
  after_check w (err e) continue = (w, some (wrap (codes "get") e))
  after_check w (ok got) continue =
      if not got.found
      then (w, none)
      else (let (u, c) = acts.sleep cfg.poll_interval w in
          elim c [ some e ↦ (u, some e) | none ↦ continue u ])

  -- The polling loop of `deleteAndWaitGone`
  unfoldable pub poll_gone : ℕ → W → W × Check
  unfolding still_present_error own_id after_check
  poll_gone zero w = (w, some still_present_error)
  poll_gone (suc left) w =
      let (v, r) = acts.get cfg.gvk own_id w in after_check v r (λ u. poll_gone left u)

  -- `deleteAndWaitGone` after the delete activity
  unfoldable pub await_gone : W × Check → W × Check
  unfolding poll_gone
  await_gone (w, some e) = (w, some (wrap (codes "delete") e))
  await_gone (w, none) = poll_gone cfg.poll_attempts w

  -- `deleteAndWaitGone`
  unfoldable pub delete_and_wait_gone : W → W × Check
  unfolding await_gone own_id
  delete_and_wait_gone w = await_gone (acts.remove cfg.gvk own_id w)

-- ===== src/Entclient/Labels.antt =====
-- pkg/entclient/operator.go, `SetLabelsRaw`, against the built-in command of pkg/entdefine/loop.go.
use temporal_entity.Base.{
  ◌≡◌, refl, ◌∙◌, ap, none, some, [], Str, Dict, keys, lookup, IsDistinct, ◌==◌, ==_refl, false,
  Result, ok, err,
}
use temporal_entity.Entity.Id.{RequestId}
use temporal_entity.Entity.State.{set_labels_command_name}
use temporal_entity.Entity.Command.{Payload, Codec}
use temporal_entity.Wire.{CommandEnvelope, OpResult, op_result, record_completed, merge_labels}
use temporal_entity.Wire.Cache.{HasCache}
use temporal_entity.Wire.Cache.Lookup.{lookup-record_completed}
use temporal_entity.Wire.Labels.{patched, lookup-merge_labels}
use temporal_entity.Entdefine.Definition.{Definition}
use temporal_entity.Entdefine.Frame.{env-mirror_labels, merge_labels-SameChassis}
use temporal_entity.Entdefine.Dedup.{HasCache-of_same}
use temporal_entity.Entclient.Typed.{await_update}
use temporal_entity.Entdefine.Loop.{Machine, run_set_labels, patch_labels, update_result}
use temporal_entity.Entclient.Server.{Server}
use temporal_entity.Entclient.Operator.{set_labels_raw, exec_raw, fill_request_id}

-- The command that a patch of labels is queued as.
abbrev pub patch_command : RequestId → Payload → CommandEnvelope
patch_command id payload = record {
  request_id = id;
  name = set_labels_command_name;
  payload = payload;
}

module _ {V Spec State : Type 0} (patches : Codec (Dict Str)) (d : Definition V Spec State)
    (id : RequestId) (patch : Dict Str) (payload : Payload) (m : Machine V Spec State)
    (decoded : patches.unmarshal payload ≡ ok patch) where
  env-run_set_labels :
      (run_set_labels patches d (patch_command id payload) m).env
      ≡ record_completed id [] none (merge_labels patch m.env).0
  unfolding run_set_labels patch_labels
  env-run_set_labels =
      env-mirror_labels d
        (patch_labels patches d (patch_command id payload) (patches.unmarshal payload) m)
      ∙ ap (λ r. (patch_labels patches d (patch_command id payload) r m).env) decoded

  -- The merged envelope has the cache that it had, so the outcome of the command is a success.
  remembers_success :
      (o : OpResult)
      → HasCache m.env
      → lookup id (run_set_labels patches d (patch_command id payload) m).env.completed ≡ some o
      → o ≡ op_result [] none
  remembers_success o cache found =
      let env = (merge_labels patch m.env).0 in
      let s = merge_labels-SameChassis patch m.env in
      let reads =
        lookup-record_completed id id [] none env
          (HasCache-of_same m.env env s.completed s.completed_order cache) in
      let says : lookup id (record_completed id [] none env).completed ≡ some (op_result [] none) =
        reads ∙ (rw (==_refl id) refl) in
      cc (found, says, ap (λ e. lookup id e.completed) env-run_set_labels)

  labels-run_set_labels :
      (k : Str)
      → IsDistinct (keys patch)
      → lookup k (run_set_labels patches d (patch_command id payload) m).env.labels
        ≡ patched (lookup k patch) (lookup k m.env.labels)
  unfolding record_completed
  labels-run_set_labels k distinct =
      ap (λ e. lookup k e.labels) env-run_set_labels ∙ lookup-merge_labels k patch m.env distinct

-- A patch of labels reaches the entity: if the workflow id is not empty, the patch has distinct keys
-- and JSON decodes what it encoded, the cache of the entity is well formed, the server hands the
-- update's command to the entity and its remembered outcome back, then `SetLabelsRaw` returns no
-- error, and after the command a label that the patch does not name is as it was, one that it names
-- with the empty value is absent, and any other has the patch's value.
pub set_labels_reaches_entity :
    {V W H R Spec State : Type 0} (server : Server W H R Payload Payload) (run_id : R → Str)
    (patches : Codec (Dict Str)) (d : Definition V Spec State) (full : Str) (patch : Dict Str)
    (payload : Payload) (m : Machine V Spec State) (o : OpResult) (id : RequestId) (h : H)
    (w u v x : W)
    → (full == []) ≡ false
    → patches.marshal patch ≡ ok payload
    → patches.unmarshal payload ≡ ok patch
    → IsDistinct (keys patch)
    → HasCache m.env
    → server.new_uuid w ≡ (u, id)
    → server.update full set_labels_command_name (record { request_id = id; payload = payload }) u
      ≡ (v, ok h)
    → lookup id (run_set_labels patches d (patch_command id payload) m).env.completed ≡ some o
    → server.get h v ≡ (x, update_result o)
    → (set_labels_raw server run_id patches full patch w ≡ (x, none))
      × ((k : Str)
          → lookup k (run_set_labels patches d (patch_command id payload) m).env.labels
            ≡ patched (lookup k patch) (lookup k m.env.labels))
unfolding set_labels_raw exec_raw fill_request_id await_update update_result ◌==◌
set_labels_reaches_entity {W = W} server run_id patches d full patch payload m o id h w u v x named
      encoded decoded distinct cache fresh sent found got =
    let answered : server.get h v ≡ (x, ok []) =
      got
      ∙ ap (λ q. (x, update_result q))
          (remembers_success patches d id patch payload m decoded o cache found) in
    let ran : exec_raw server run_id patches full set_labels_command_name payload [] w
        ≡ (x, ok []) =
      rw (named, exec_raw)
        (ap
            (λ f. await_update server (
              server.update full set_labels_command_name
                (record { request_id = f.1; payload = payload }) f.0))
            fresh
          ∙ ap (await_update server) sent
          ∙ answered) in
    (
      rw (encoded, set_labels_raw)
          (ap (λ (r : W × Result Payload). (r.0, elim r.1 [ err e ↦ some e | ok out ↦ none ])) ran),
      (λ k. labels-run_set_labels patches d id patch payload m decoded k distinct),
    )

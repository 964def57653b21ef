-- ===== src/Reconciler/BlueGreen/Switching.antt =====
-- The blue-green switch of examples/reconciler/main.go on the in-memory cluster, on each way that it
-- can end.
use temporal_entity.Base.{
  ◌≡◌, refl, ap, none, some, [], ◌∷◌, ◌++◌, Str, codes, arith, ◌==◌, if◌then◌else◌, Dict, lookup,
  insert, erase, lookup-insert, lookup-erase, Error, Result, ok, err,
}
use temporal_entity.Entity.Command.{Payload, Codec}
use temporal_entity.Entdefine.Context.{View, put_spec}
use temporal_entity.K8slib.Ref.{ref_id}
use temporal_entity.K8slib.Fake.{Cluster, error_at, fake_activities}
use temporal_entity.Reconciler.Deployment.{Deployment}
use temporal_entity.Reconciler.BlueGreen.{
  BlueGreen, Live, green_ref, warmup_workflow, blue_green, blue_green_answer,
}
use temporal_entity.Reconciler.BlueGreen.Steps.{
  web_key, green_key, finished, retired, run-switched, run-warm_failed, run-switch_failed,
}

-- The deployment that the command asks for.
abbrev pub green_of : View Deployment Live → BlueGreen → Deployment
green_of view cmd = record view.spec { image = cmd.new_image }

-- Only the objects have changed.
abbrev pub SameSettings : Cluster → Cluster → Type 0
SameSettings v c =
    (v.converge ≡ c.converge) × (v.fail_apply ≡ c.fail_apply) × (v.fail_delete ≡ c.fail_delete)

lookup-finished :
    (k : Str) (manifest : Payload) (objects : Dict Payload)
    → lookup k (erase green_key (insert web_key manifest (insert green_key manifest objects)))
      ≡ (if green_key == k then none else if web_key == k then some manifest else lookup k objects)
lookup-finished k manifest objects = ground (
  arith,
  lookup-erase green_key k (insert web_key manifest (insert green_key manifest objects)),
  lookup-insert web_key k manifest (insert green_key manifest objects),
  lookup-insert green_key k manifest objects,
)

lookup-retired :
    (k : Str) (manifest : Payload) (objects : Dict Payload)
    → lookup k (erase green_key (insert green_key manifest objects))
      ≡ (if green_key == k then none else lookup k objects)
lookup-retired k manifest objects = ground (
  arith,
  lookup-erase green_key k (insert green_key manifest objects),
  lookup-insert green_key k manifest objects,
)

module _ (json : Codec Deployment)
    (children : Str → (Cluster → Cluster × Result Str) → Cluster → Cluster × Result Str)
    (full : Str) (view : View Deployment Live) (cmd : BlueGreen) (manifest : Payload) (c : Cluster)
    (encoded : json.marshal (green_of view cmd) ≡ ok manifest)
    (provides : error_at green_key c.fail_apply ≡ none)
    (removes : error_at green_key c.fail_delete ≡ none) where
  -- The child workflow as the handler starts it.
  abbrev pub warmup_child : Cluster → Cluster × Result Str
  warmup_child =
      children (full ++ codes "/warmup")
        (warmup_workflow json fake_activities children full (ref_id green_ref))

  -- On the in-memory cluster, if the new deployment can be encoded, the cluster is not told to fail
  -- a call on the green object or an `Apply` of the web object, and the child workflow gives a text and
  -- leaves the cluster alone, `BlueGreen` answers that text, sets the spec once, to the new image, and
  -- afterwards the web object is the new deployment, the green one is gone and every other object is as
  -- before.
  pub blue_green_switches :
      (text : Str)
      → ((v : Cluster) → warmup_child v ≡ (v, ok text))
      → error_at web_key c.fail_apply ≡ none
      → (v : Cluster) × (blue_green json fake_activities children full c view cmd
          ≡ (v, put_spec (green_of view cmd) ∷ [], ok (record { switched = text })))
        × SameSettings v c
        × ((k : Str)
            → lookup k v.objects ≡ (
                if green_key == k
                then none
                else if web_key == k
                then some manifest
                else lookup k c.objects))
  unfolding blue_green blue_green_answer
  blue_green_switches text warms obeys = (
    finished json children full (green_of view cmd) manifest encoded c,
    ap (blue_green_answer json fake_activities children full) (
        run-switched json children full (green_of view cmd) manifest encoded c provides removes text
          (warms _) obeys),
    (refl, refl, refl),
    (λ k. lookup-finished k manifest c.objects),
  )

  -- On the in-memory cluster, if the new deployment can be encoded, the cluster is not told to fail
  -- the green object, and the child workflow fails and leaves the cluster alone, `BlueGreen` answers an
  -- error, makes no call on the entity, and every object but the green one, which is gone, is as before.
  pub blue_green_rolls_back :
      (e : Error)
      → ((v : Cluster) → warmup_child v ≡ (v, err e))
      → (v : Cluster) × (f : Error) × (blue_green json fake_activities children full c view cmd
          ≡ (v, [], err f))
        × SameSettings v c
        × ((k : Str) → lookup k v.objects ≡ (if green_key == k then none else lookup k c.objects))
  unfolding blue_green blue_green_answer
  blue_green_rolls_back e fails = (
    retired json children full (green_of view cmd) manifest encoded c,
    _,
    ap (blue_green_answer json fake_activities children full) (
        run-warm_failed json children full (green_of view cmd) manifest encoded c provides removes e
          (fails _)),
    (refl, refl, refl),
    (λ k. lookup-retired k manifest c.objects),
  )

  -- On the in-memory cluster, if the new deployment can be encoded, the cluster is told to fail an
  -- `Apply` of the web object but no call on the green one, and the child workflow gives a text and
  -- leaves the cluster alone, `BlueGreen` answers an error and takes the green object back, but has set
  -- the spec of the entity to the new image all the same.
  pub failed_switch_keeps_spec :
      (text : Str) (e : Error)
      → ((v : Cluster) → warmup_child v ≡ (v, ok text))
      → error_at web_key c.fail_apply ≡ some e
      → (v : Cluster) × (f : Error) × (blue_green json fake_activities children full c view cmd
          ≡ (v, put_spec (green_of view cmd) ∷ [], err f))
        × SameSettings v c
        × ((k : Str) → lookup k v.objects ≡ (if green_key == k then none else lookup k c.objects))
  unfolding blue_green blue_green_answer
  failed_switch_keeps_spec text e warms fails = (
    retired json children full (green_of view cmd) manifest encoded c,
    _,
    ap (blue_green_answer json fake_activities children full) (
        run-switch_failed json children full (green_of view cmd) manifest encoded c provides removes
          text (warms _) e fails),
    (refl, refl, refl),
    (λ k. lookup-retired k manifest c.objects),
  )

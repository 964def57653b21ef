-- ===== src/Reconciler/BlueGreen/Steps.antt =====
-- The saga of examples/reconciler/main.go on the in-memory cluster, step by step.
use temporal_entity.Base.{
  ◌≡◌, refl, ◌∙◌, ap, none, some, List, [], ◌∷◌, ◌++◌, Str, codes, Dict, insert, erase, Error,
  Result, ok, err,
}
use temporal_entity.Entity.Command.{Payload, Codec}
use temporal_entity.Entdefine.Context.{Mutation, put_spec}
use temporal_entity.Entdefine.Definition.{join_errors}
use temporal_entity.Entdefine.Saga.{SagaStep, run, run_from, forward_error, compensate_all}
use temporal_entity.Entdefine.Saga.Steps.{
  run_from-ok, run_from-failed, compensate_all-undo, compensate_all-skip, fail_with-cleanly,
}
use temporal_entity.K8slib.Ref.{ref_id}
use temporal_entity.K8slib.Ops.{apply_object, delete_object}
use temporal_entity.K8slib.Fake.{Cluster, key, error_at, apply, remove, fake_activities}
use temporal_entity.Reconciler.Deployment.{Deployment}
use temporal_entity.Reconciler.BlueGreen.{
  Live, Work, deployment_gvk, web_ref, green_ref, provision_green, remove_green, warm_up,
  keep_warmed, warmup_workflow, switch_traffic, blue_green_saga,
}

abbrev pub web_key : Str
web_key = key deployment_gvk (ref_id web_ref)

abbrev pub green_key : Str
green_key = key deployment_gvk (ref_id green_ref)

module _ (json : Codec Deployment)
    (children : Str → (Cluster → Cluster × Result Str) → Cluster → Cluster × Result Str)
    (full : Str) (green : Deployment) (manifest : Payload)
    (encoded : json.marshal green ≡ ok manifest) (c : Cluster) where
  -- What the saga makes of the cluster, step by step.
  abbrev pub provisioned : Cluster
  provisioned = record c { objects = insert green_key manifest c.objects }

  abbrev pub retired : Cluster
  retired = record c { objects = erase green_key (insert green_key manifest c.objects) }

  abbrev pub switched : Cluster
  switched = record c { objects = insert web_key manifest (insert green_key manifest c.objects) }

  abbrev pub finished : Cluster
  finished = record c {
    objects = erase green_key (insert web_key manifest (insert green_key manifest c.objects));
  }

  abbrev pub work : Cluster → List (Mutation Deployment Live) → Str → Work Cluster
  work v calls warmed = record { world = v; calls = calls; warmed = warmed }

  provision-steps :
      error_at green_key c.fail_apply ≡ none
      → provision_green json fake_activities children full green (work c [] [])
        ≡ (work provisioned [] [], none)
  unfolding provision_green apply_object apply
  provision-steps obeys = rw (encoded, obeys, apply_object, apply) refl

  warm-steps :
      (v : Cluster) (r : Result Str)
      → children
          (full ++ codes "/warmup")
          (warmup_workflow json fake_activities children full (ref_id green_ref))
          v
        ≡ (v, r)
      → warm_up json fake_activities children full (work v [] [])
        ≡ keep_warmed json fake_activities children full (work v [] []) (v, r)
  unfolding warm_up
  warm-steps v r h = ap (keep_warmed json fake_activities children full (work v [] [])) h

  switch-steps :
      (warmed : Str)
      → error_at web_key c.fail_apply ≡ none
      → switch_traffic json fake_activities children full green (work provisioned [] warmed)
        ≡ (work switched (put_spec green ∷ []) warmed, none)
  unfolding switch_traffic apply_object apply
  switch-steps warmed obeys = rw (encoded, obeys, apply_object, apply) refl

  switch-fails :
      (warmed : Str) (e : Error)
      → error_at web_key c.fail_apply ≡ some e
      → switch_traffic json fake_activities children full green (work provisioned [] warmed)
        ≡ (work provisioned (put_spec green ∷ []) warmed, some e)
  unfolding switch_traffic apply_object apply
  switch-fails warmed e fails = rw (encoded, fails, apply_object, apply) refl

  remove-steps :
      (objects : Dict Payload) (calls : List (Mutation Deployment Live)) (warmed : Str)
      → error_at green_key c.fail_delete ≡ none
      → remove_green json fake_activities children full
          (work (record c { objects = objects }) calls warmed)
        ≡ (work (record c { objects = erase green_key objects }) calls warmed, none)
  unfolding remove_green delete_object remove
  remove-steps objects calls warmed obeys = rw (obeys, delete_object, remove) refl

  module _ (provides : error_at green_key c.fail_apply ≡ none)
      (removes : error_at green_key c.fail_delete ≡ none) where
    -- The four steps.
    abbrev pub provisioning : SagaStep (Work Cluster)
    provisioning = record {
      name = codes "provision-green";
      forward = provision_green json fake_activities children full green;
      compensate = some (remove_green json fake_activities children full);
    }

    abbrev pub warming : SagaStep (Work Cluster)
    warming = record {
      name = codes "warmup";
      forward = warm_up json fake_activities children full;
      compensate = none;
    }

    abbrev pub switching : SagaStep (Work Cluster)
    switching = record {
      name = codes "switch-traffic";
      forward = switch_traffic json fake_activities children full green;
      compensate = none;
    }

    abbrev pub retiring : SagaStep (Work Cluster)
    retiring = record {
      name = codes "retire-green";
      forward = remove_green json fake_activities children full;
      compensate = none;
    }

    abbrev pub before : Work Cluster
    before = work c [] []

    abbrev pub calls : List (Mutation Deployment Live)
    calls = put_spec green ∷ []

    abbrev pub warmup : Cluster → Cluster × Result Str
    warmup =
        children (full ++ codes "/warmup")
          (warmup_workflow json fake_activities children full (ref_id green_ref))

    run-provisioned :
        run (blue_green_saga json fake_activities children full green) before
        ≡ run_from
            (provisioning ∷ [])
            (warming ∷ switching ∷ retiring ∷ [])
            (work provisioned [] [])
    unfolding run blue_green_saga
    run-provisioned =
        run_from-ok [] provisioning (warming ∷ switching ∷ retiring ∷ []) before
          (work provisioned [] []) (provision-steps provides)

    pub run-warm_failed :
        (e : Error)
        → warmup provisioned ≡ (provisioned, err e)
        → run (blue_green_saga json fake_activities children full green) before
          ≡ (work retired [] [], some (join_errors (forward_error warming e ∷ [])))
    unfolding keep_warmed
    run-warm_failed e h =
        run-provisioned
        ∙ run_from-failed (provisioning ∷ []) warming (switching ∷ retiring ∷ [])
            (work provisioned [] []) (work provisioned [] []) e (warm-steps provisioned (err e) h)
        ∙ fail_with-cleanly (provisioning ∷ []) warming e (work provisioned [] [])
            (work retired [] [])
            (compensate_all-undo provisioning [] (remove_green json fake_activities children full)
                (work provisioned [] []) (work retired [] []) refl
                (remove-steps (insert green_key manifest c.objects) [] [] removes)
              ∙ unfold compensate_all in refl)

    module _ (text : Str) (h : warmup provisioned ≡ (provisioned, ok text)) where
      run-warmed :
          run (blue_green_saga json fake_activities children full green) before
          ≡ run_from
              (provisioning ∷ warming ∷ [])
              (switching ∷ retiring ∷ [])
              (work provisioned [] text)
      unfolding keep_warmed
      run-warmed =
          run-provisioned
          ∙ run_from-ok (provisioning ∷ []) warming (switching ∷ retiring ∷ [])
              (work provisioned [] []) (work provisioned [] text)
              (warm-steps provisioned (ok text) h)

      pub run-switch_failed :
          (e : Error)
          → error_at web_key c.fail_apply ≡ some e
          → run (blue_green_saga json fake_activities children full green) before
            ≡ (work retired calls text, some (join_errors (forward_error switching e ∷ [])))
      run-switch_failed e fails =
          run-warmed
          ∙ run_from-failed (provisioning ∷ warming ∷ []) switching (retiring ∷ [])
              (work provisioned [] text) (work provisioned calls text) e (switch-fails text e fails)
          ∙ fail_with-cleanly (provisioning ∷ warming ∷ []) switching e
              (work provisioned calls text) (work retired calls text)
              (compensate_all-skip warming (provisioning ∷ []) (work provisioned calls text) refl
                ∙ compensate_all-undo provisioning []
                    (remove_green json fake_activities children full) (work provisioned calls text)
                    (work retired calls text) refl
                    (remove-steps (insert green_key manifest c.objects) calls text removes)
                ∙ unfold compensate_all in refl)

      pub run-switched :
          error_at web_key c.fail_apply ≡ none
          → run (blue_green_saga json fake_activities children full green) before
            ≡ (work finished calls text, none)
      run-switched obeys =
          run-warmed
          ∙ run_from-ok (provisioning ∷ warming ∷ []) switching (retiring ∷ [])
              (work provisioned [] text) (work switched calls text) (switch-steps text obeys)
          ∙ run_from-ok (provisioning ∷ warming ∷ switching ∷ []) retiring []
              (work switched calls text) (work finished calls text)
              (remove-steps (insert web_key manifest (insert green_key manifest c.objects)) calls
                text removes)
          ∙ unfold run_from in refl

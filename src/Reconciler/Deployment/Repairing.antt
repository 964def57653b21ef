-- ===== src/Reconciler/Deployment/Repairing.antt =====
-- `reconcileDrift` on the in-memory cluster of examples/reconciler/main.go: what a tick leaves.
use mathlib.Core.Path.{subst}
use temporal_entity.Base.{
  not, ◌==◌, Option, ℕ, ◌+◌, ◌≤◌, ◌<◌, ◌≡◌, refl, sym, ◌∙◌, ap, inl, inr, Bool, true, false, none,
  some, [], ◌∷◌, List, Str, arith, ok, err, Check, if◌then◌else◌, ◌=ℤ◌, ==_refl, ℤ, pos, negsuc,
}
use temporal_entity.Entity.Command.{Payload, Codec}
use temporal_entity.Entdefine.Context.{View, Mutation, put_state}
use temporal_entity.K8slib.Config.{Config, LiveState}
use temporal_entity.K8slib.Handlers.{
  is_ready_phase, apply_and_wait_ready, no_state, healed_or_failed, settle_drift, compare_live,
  reconcile_compared, reconcile_decoded, reconcile_got, reconcile_drift,
}
use temporal_entity.K8slib.Fake.{Cluster, get, fake_activities}
use temporal_entity.Reconciler.Deployment.{
  Deployment, no_deployment, has_replicas, differs, advance,
}
use temporal_entity.Reconciler.Deployment.Converging.{IsFaithful, gap, Holds, get-Holds}
use temporal_entity.Reconciler.Deployment.Recovering.{IsWorking, IsReadable}
use temporal_entity.Reconciler.Deployment.Up.{IsUp, apply-IsUp, image-advance, replicas-advance}

=ℤ_refl : (a : ℤ) → (a =ℤ a) ≡ true
=ℤ_refl (pos n) = ground arith
=ℤ_refl (negsuc n) = ground arith

differs-same :
    (a b : Deployment) → b.image ≡ a.image → b.replicas ≡ a.replicas → differs a b ≡ false
unfolding differs
differs-same a b image replicas = rw (image, replicas, ==_refl a.image, =ℤ_refl a.replicas) refl

differs-advance : (a b : Deployment) → differs a (advance b) ≡ differs a b
unfolding differs
differs-advance a b = rw (image-advance b, replicas-advance b) refl

module _ (json : Codec Deployment) (law : IsFaithful json) (digest : Payload → Str)
    (decimal : ℕ → Str) (cfg : Config Deployment) (full : Str) where
  -- Is there something to repair: is the object missing, or does it differ from the spec?
  abbrev pub needs_repair :
      Deployment → (c : Cluster) → IsReadable json law digest decimal cfg full c → Bool
  needs_repair spec c (inl missing) = true
  needs_repair spec c (inr (live, held)) = differs spec live

  -- What a tick leaves: no error and a new state that is not drifted; the cluster holds the live
  -- deployment of that state under the entity's key, which has the image and the number of replicas of
  -- the spec; a repair is counted, and leaves no replica missing.
  pub record IsRepaired (spec : Deployment) (old : LiveState Deployment) (needed : Bool)
      (r : Cluster × List (Mutation Deployment (LiveState Deployment)) × Check) : Type 0 where
    pub quiet : r.2 ≡ none
    pub state : LiveState Deployment
    pub wrote : r.1 ≡ put_state state ∷ []
    pub steady : state.drifted ≡ false
    pub holds : Holds json law digest decimal cfg full state.live r.0
    pub same : differs spec state.live ≡ false
    pub counted : state.heals ≡ old.heals + (if needed then 1 else 0)
    pub complete : (if needed then gap state.live else 0) ≡ 0

  module _ (ready : cfg.is_ready ≡ some has_replicas) (looks : 0 < cfg.poll_attempts) where
    healed_or_failed-IsRepaired :
        (spec : Deployment) (old st : LiveState Deployment) (m : Payload)
        (r : Cluster × LiveState Deployment × Check)
        → old.heals ≡ st.heals
        → IsUp json law digest decimal cfg full spec
            (record (no_state json no_deployment digest decimal fake_activities cfg full) {
              desired_digest = digest m;
            })
            r
        → IsRepaired spec old true
            (healed_or_failed json no_deployment digest decimal fake_activities cfg full st r)
    unfolding healed_or_failed
    healed_or_failed-IsRepaired spec old st m (v, healed, some e) heals up = absurd (cc up.quiet)
    healed_or_failed-IsRepaired spec old st m (v, healed, none) heals up = record {
      quiet = refl;
      state = record healed { heals = st.heals + 1 };
      wrote = refl;
      steady = ap (λ (s : LiveState Deployment). s.drifted) up.state;
      holds = up.holds;
      same = differs-same spec healed.live up.image up.replicas;
      counted = omega (arith, heals);
      complete = up.complete;
    }

    settle_drift-IsRepaired :
        (spec live : Deployment) (old : LiveState Deployment) (c : Cluster)
        → IsWorking json law digest decimal cfg full c
        → gap spec ≤ cfg.poll_attempts
        → Holds json law digest decimal cfg full live c
        → (drifted : Bool) → drifted ≡ differs spec live
        → IsRepaired spec old drifted (
            settle_drift json no_deployment digest decimal fake_activities cfg full spec drifted
              (record old { live = live })
              c)
    unfolding settle_drift
    settle_drift-IsRepaired spec live old c w enough held false says = record {
      quiet = refl;
      state = record old { live = live; drifted = false };
      wrote = refl;
      steady = refl;
      holds = held;
      same = sym says;
      counted = omega arith;
      complete = refl;
    }
    settle_drift-IsRepaired spec live old c w enough held true says =
        let (m, encoded, decoded) = law spec in
        healed_or_failed-IsRepaired spec old (record old { live = live }) m
          (apply_and_wait_ready json no_deployment digest decimal fake_activities cfg full spec c)
          refl (apply-IsUp json law digest decimal cfg full ready spec m c encoded w looks enough)

    reconcile_got-IsRepaired :
        (view : View Deployment (LiveState Deployment)) (live : Deployment) (q : Payload)
        (c : Cluster)
        → cfg.is_drifted ≡ some differs
        → json.unmarshal q ≡ ok live
        → Holds json law digest decimal cfg full live c
        → IsWorking json law digest decimal cfg full c
        → gap view.spec ≤ cfg.poll_attempts
        → IsRepaired view.spec view.state (differs view.spec live) (
            reconcile_got json no_deployment digest decimal fake_activities cfg full view
              (ok (record { manifest = q; found = true }))
              c)
    unfolding reconcile_got reconcile_decoded reconcile_compared compare_live
    reconcile_got-IsRepaired view live q c compares e held w enough =
        subst (IsRepaired view.spec view.state (differs view.spec live))
          (sym (
            ap
              (λ r.
                reconcile_decoded json no_deployment digest decimal fake_activities cfg full view q
                  r c)
              e
            ∙ ap
                (λ r.
                  reconcile_compared json no_deployment digest decimal fake_activities cfg full view
                    live r c)
                (compared cfg.is_drifted compares)))
          (settle_drift-IsRepaired view.spec live view.state c w enough held
            (differs view.spec live) refl)
      where
        compared :
            (o : Option (Deployment → Deployment → Bool))
            → o ≡ some differs
            → (elim o [
              | some fn ↦ ok (fn view.spec live)
              | none ↦ elim (json.marshal view.spec) [
                | err f ↦ err f
                | ok m ↦ ok (not (digest m == digest q))
              ]
            ])
              ≡ ok (differs view.spec live)
        compared none h = cc h
        compared (some fn) h = cc h

    pub reconcile_drift-IsRepaired :
        (view : View Deployment (LiveState Deployment)) (c : Cluster)
        → cfg.is_drifted ≡ some differs
        → is_ready_phase view.phase ≡ true
        → IsWorking json law digest decimal cfg full c
        → (readable : IsReadable json law digest decimal cfg full c)
        → gap view.spec ≤ cfg.poll_attempts
        → IsRepaired view.spec view.state
            (needs_repair view.spec c readable)
            (reconcile_drift json no_deployment digest decimal fake_activities cfg full c view)
    unfolding reconcile_drift get reconcile_got settle_drift
    reconcile_drift-IsRepaired view c compares up w (inl missing) enough =
        let (m, encoded, decoded) = law view.spec in
        rw (up, missing, reconcile_drift, get, reconcile_got)
          (healed_or_failed-IsRepaired view.spec view.state view.state m
            (apply_and_wait_ready json no_deployment digest decimal fake_activities cfg full
              view.spec c)
            refl
            (apply-IsUp json law digest decimal cfg full ready view.spec m c encoded w looks
              enough))
    reconcile_drift-IsRepaired view c compares up w (inr (live, held)) enough =
        let (q, v, still, decoded, got, same) =
          get-Holds json law digest decimal cfg full live c held in
        subst
          (λ b.
            IsRepaired view.spec view.state b
              (reconcile_drift json no_deployment digest decimal fake_activities cfg full c view))
          (differs-advance view.spec live)
          (rw (up, reconcile_drift)
            (subst (IsRepaired view.spec view.state (differs view.spec (advance live)))
              (sym (
                ap
                  (λ r.
                    reconcile_got json no_deployment digest decimal fake_activities cfg full view
                      r.1 r.0)
                  got))
              (reconcile_got-IsRepaired view (advance live) q v compares decoded still
                (record { hook = still.hook; obeys = rw same w.obeys }) enough)))

-- ===== src/Reconciler/Deployment/Up.antt =====
-- `applyAndWaitReady` on the in-memory cluster of examples/reconciler/main.go: the deployment that it
-- brings up.
use mathlib.Core.Path.{subst}
use temporal_entity.Base.{
  ℕ, zero, suc, ◌<◌, ◌≤◌, ◌≡◌, refl, sym, ◌∙◌, ap, inl, inr, true, none, some, Str, arith, ltb,
  if◌then◌else◌, Bool-cases, ok, Check,
}
use temporal_entity.Entity.Command.{Payload, Codec}
use temporal_entity.K8slib.Config.{Config, LiveState}
use temporal_entity.K8slib.Handlers.{
  settled, waiting, look, after_look, poll_ready, no_state, apply_and_wait_ready, apply_encoded,
  await_ready,
}
use temporal_entity.K8slib.Fake.{Cluster, fake_activities}
use temporal_entity.Reconciler.Deployment.{Deployment, no_deployment, has_replicas, advance}
use temporal_entity.Reconciler.Deployment.Converging.{
  IsFaithful, gap, gap-advance, Holds, get-Holds, look-found,
}
use temporal_entity.Reconciler.Deployment.Recovering.{IsWorking, apply-Holds}

pub image-advance : (d : Deployment) → (advance d).image ≡ d.image
image-advance d = ground arith

pub replicas-advance : (d : Deployment) → (advance d).replicas ≡ d.replicas
replicas-advance d = ground arith

module _ (json : Codec Deployment) (law : IsFaithful json) (digest : Payload → Str)
    (decimal : ℕ → Str) (cfg : Config Deployment) (full : Str) where
  -- A run of the handler that started with the state `st` has ended well: the cluster holds the live
  -- deployment of its state under the entity's key, with the desired image and number of replicas and
  -- none missing, and the state is otherwise `st`, and ready.
  pub record IsUp (desired : Deployment) (st : LiveState Deployment)
      (r : Cluster × LiveState Deployment × Check) : Type 0 where
    pub quiet : r.2 ≡ none
    pub holds : Holds json law digest decimal cfg full r.1.live r.0
    pub image : r.1.live.image ≡ desired.image
    pub replicas : r.1.live.replicas ≡ desired.replicas
    pub complete : gap r.1.live ≡ 0
    pub state : r.1 ≡ record st { live = r.1.live; ready = true }

  module _ (ready : cfg.is_ready ≡ some has_replicas) where
    after_look-IsUp :
        (d : Deployment) (st : LiveState Deployment) (v : Cluster)
        (continue : LiveState Deployment → Cluster → Cluster × LiveState Deployment × Check)
        → Holds json law digest decimal cfg full (advance d) v
        → ((s : LiveState Deployment) → 0 < gap (advance d) → IsUp (advance d) s (continue s v))
        → IsUp d st (
            after_look json no_deployment digest decimal fake_activities cfg full st v
              (if ltb 0 (gap (advance d))
                then waiting (record st { live = advance d })
                else settled (record st { live = advance d; ready = true }))
              continue)
    unfolding after_look
    after_look-IsUp d st v continue held rest = elim (Bool-cases (ltb 0 (gap (advance d)))) [
      | inl short ↦
          let up = rest (record st { live = advance d }) (ground arith) in
          rw (short, after_look)
            (record {
              quiet = up.quiet;
              holds = up.holds;
              image = up.image ∙ image-advance d;
              replicas = up.replicas ∙ replicas-advance d;
              complete = up.complete;
              state = up.state;
            })
      | inr done ↦
          rw (done, after_look)
            (record {
              quiet = refl;
              holds = held;
              image = image-advance d;
              replicas = replicas-advance d;
              complete = ground arith;
              state = refl;
            })
    ]

    poll_ready-IsUp :
        (n : ℕ) (d : Deployment) (st : LiveState Deployment) (c : Cluster)
        → 0 < n
        → gap d ≤ n
        → Holds json law digest decimal cfg full d c
        → IsUp d st (poll_ready json no_deployment digest decimal fake_activities cfg full n st c)
    unfolding poll_ready
    poll_ready-IsUp zero d st c some_look enough h = absurd (ground arith)
    poll_ready-IsUp (suc n) d st c some_look enough h =
        let (q, v, held, decoded, got, same) = get-Holds json law digest decimal cfg full d c h in
        subst (IsUp d st)
          (sym (
            ap
              (λ r.
                after_look json no_deployment digest decimal fake_activities cfg full st r.0
                  (look json no_deployment digest decimal fake_activities cfg full r.1 st)
                  (λ s u.
                    poll_ready json no_deployment digest decimal fake_activities cfg full n s u))
              got
            ∙ ap
                (λ l.
                  after_look json no_deployment digest decimal fake_activities cfg full st v l
                    (λ s u.
                      poll_ready json no_deployment digest decimal fake_activities cfg full n s u))
                (look-found json law digest decimal cfg full q (advance d) st ready decoded)))
          (after_look-IsUp d st v
            (λ s u. poll_ready json no_deployment digest decimal fake_activities cfg full n s u)
            held
            (λ s short.
              let less = gap-advance d in
              poll_ready-IsUp n (advance d) s v (omega (arith, less, short, enough))
                (omega (arith, less, short, enough)) held))

    pub apply-IsUp :
        (desired : Deployment) (m : Payload) (c : Cluster)
        → json.marshal desired ≡ ok m
        → IsWorking json law digest decimal cfg full c
        → 0 < cfg.poll_attempts
        → gap desired ≤ cfg.poll_attempts
        → IsUp desired
            (record (no_state json no_deployment digest decimal fake_activities cfg full) {
              desired_digest = digest m;
            })
            (apply_and_wait_ready json no_deployment digest decimal fake_activities cfg full desired
              c)
    unfolding apply_and_wait_ready apply_encoded await_ready
    apply-IsUp desired m c encoded w looks enough =
        let (m', encoded', decoded') = law desired in
        let decoded : json.unmarshal m ≡ ok desired = cc (encoded, encoded', decoded') in
        let (v, applied, held) =
          apply-Holds json law digest decimal cfg full ready looks desired m c w decoded in
        subst (IsUp desired _)
          (sym (
            ap (λ r. apply_encoded json no_deployment digest decimal fake_activities cfg full r c)
              encoded
            ∙ ap (λ r. await_ready json no_deployment digest decimal fake_activities cfg full m r)
                applied))
          (poll_ready-IsUp cfg.poll_attempts desired _ v looks enough held)

-- ===== src/Reconciler/Deployment/Converging.antt =====
-- The loop of `applyAndWaitReady` on the in-memory cluster of examples/reconciler/main.go: each look
-- brings one replica up.
use temporal_entity.Base.{
  ℕ, zero, suc, ◌+◌, ◌-◌, ◌<◌, ◌≡◌, refl, ◌∙◌, ap, inl, inr, true, not, none, some, Str, arith, ltb,
  leb, if◌then◌else◌, distance, lookup, insert, lookup-insert, ==_refl, Bool-cases, if_not, ok,
  Check,
}
use temporal_entity.Entity.Command.{Payload, Codec}
use temporal_entity.K8slib.Config.{Config, LiveState}
use temporal_entity.K8slib.Handlers.{
  settled, waiting, own_id, look, after_look, poll_ready, not_ready_error,
}
use temporal_entity.K8slib.Fake.{Cluster, key, get, fake_activities}
use temporal_entity.Reconciler.Deployment.{
  Deployment, no_deployment, has_replicas, advance, converge,
}

-- What `encoding/json` does on a deployment: it encodes each, and decodes what it encoded.
abbrev pub IsFaithful : Codec Deployment → Type 0
IsFaithful json =
    (d : Deployment) → (p : Payload) × (json.marshal d ≡ ok p) × (json.unmarshal p ≡ ok d)

-- The replicas that are missing.
abbrev pub gap : Deployment → ℕ
gap d = distance d.ready_replicas d.replicas

pub gap-advance : (d : Deployment) → gap (advance d) ≡ gap d - 1
gap-advance d = ground arith

has_replicas-gap : (d : Deployment) → has_replicas d ≡ not (ltb 0 (gap d))
has_replicas-gap d = ground arith

module _ (json : Codec Deployment) (law : IsFaithful json) (digest : Payload → Str)
    (decimal : ℕ → Str) (cfg : Config Deployment) (full : Str) where
  abbrev pub this : Str
  this = own_id json no_deployment digest decimal fake_activities cfg full

  -- The cluster runs the hook and holds a deployment under the entity's own key.
  pub record Holds (d : Deployment) (c : Cluster) : Type 0 where
    pub manifest : Payload
    pub hook : c.converge ≡ some (converge json)
    pub there : lookup (key cfg.gvk this) c.objects ≡ some manifest
    pub decodes : json.unmarshal manifest ≡ ok d

  -- One look: the deployment advances, and is what the look sees.
  pub get-Holds :
      (d : Deployment) (c : Cluster)
      → Holds d c
      → (q : Payload) × (v : Cluster) × Holds (advance d) v
        × (json.unmarshal q ≡ ok (advance d))
        × (get cfg.gvk this c ≡ (v, ok (record { manifest = q; found = true })))
        × (v.fail_apply ≡ c.fail_apply)
  unfolding get converge
  get-Holds d c h =
      let (q, encoded, decoded) = law (advance d) in
      let next : converge json h.manifest ≡ q = rw (h.decodes, encoded, converge) refl in
      let v : Cluster = record c { objects = insert (key cfg.gvk this) q c.objects } in
      (
        q,
        v,
        record {
          manifest = q;
          hook = h.hook;
          there =
              lookup-insert (key cfg.gvk this) (key cfg.gvk this) q c.objects
              ∙ (rw (==_refl (key cfg.gvk this)) refl);
          decodes = decoded;
        },
        decoded,
        rw (h.there, h.hook, next, get) refl,
        refl,
      )

  pub look-found :
      (q : Payload) (d : Deployment) (st : LiveState Deployment)
      → cfg.is_ready ≡ some has_replicas
      → json.unmarshal q ≡ ok d
      → look json no_deployment digest decimal fake_activities cfg full
          (ok (record { manifest = q; found = true }))
          st
        ≡ (if ltb 0 (gap d)
            then waiting (record st { live = d })
            else settled (record st { live = d; ready = true }))
  unfolding look
  look-found q d st ready e =
      rw (e, ready, look) (rw (has_replicas-gap d) (if_not (ltb 0 (gap d)) _ _))

  module _ (ready : cfg.is_ready ≡ some has_replicas) where
    -- The outcome of the polling loop: an error exactly if more replicas are missing than it looks.
    abbrev pub Outcome : ℕ → ℕ → Check
    Outcome n missing =
        if leb missing n
        then none
        else some (not_ready_error json no_deployment digest decimal fake_activities cfg full)

    after_look-outcome :
        (n missing : ℕ) (live : Deployment) (st : LiveState Deployment) (v : Cluster)
        (continue : LiveState Deployment → Cluster → Cluster × LiveState Deployment × Check)
        → gap live ≡ missing - 1
        → ((s : LiveState Deployment) → 0 < gap live → (continue s v).2 ≡ Outcome n (gap live))
        → (after_look json no_deployment digest decimal fake_activities cfg full st v
            (if ltb 0 (gap live)
              then waiting (record st { live = live })
              else settled (record st { live = live; ready = true }))
            continue).2
          ≡ Outcome (suc n) missing
    unfolding after_look
    after_look-outcome n missing live st v continue left rest =
        elim (Bool-cases (ltb 0 (gap live))) [
          | inl short ↦
              rw (short, after_look)
                (rest (record st { live = live }) (ground arith) ∙ (ground arith))
          | inr up ↦ rw (up, after_look) (ground arith)
        ]

    pub poll_ready-outcome :
        (n : ℕ) (d : Deployment) (st : LiveState Deployment) (c : Cluster)
        → 0 < n + gap d
        → Holds d c
        → (poll_ready json no_deployment digest decimal fake_activities cfg full n st c).2
          ≡ Outcome n (gap d)
    unfolding poll_ready
    poll_ready-outcome zero d st c some_look h = ground arith
    poll_ready-outcome (suc n) d st c some_look h =
        let (q, v, held, decoded, got, same) = get-Holds d c h in
        ap
          (λ r.
            (after_look json no_deployment digest decimal fake_activities cfg full st r.0
              (look json no_deployment digest decimal fake_activities cfg full r.1 st)
              (λ s u.
                poll_ready json no_deployment digest decimal fake_activities cfg full n s u)).2)
          got
        ∙ ap
            (λ l.
              (after_look json no_deployment digest decimal fake_activities cfg full st v l (λ s u.
                poll_ready json no_deployment digest decimal fake_activities cfg full n s u)).2)
            (look-found q (advance d) st ready decoded)
        ∙ after_look-outcome n (gap d) (advance d) st v
            (λ s u. poll_ready json no_deployment digest decimal fake_activities cfg full n s u)
            (gap-advance d) (λ s short. poll_ready-outcome n (advance d) s v (omega arith) held)

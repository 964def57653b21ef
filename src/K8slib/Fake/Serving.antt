-- ===== src/K8slib/Fake/Serving.antt =====
-- The in-memory cluster of examples/reconciler/k8slib/fake/fake.go under the handlers of k8slib.go:
-- what a `Get` sees, and a deletion.
use temporal_entity.Base.{
  ℕ, suc, lookup, erase, ◌≡◌, refl, ◌∙◌, ap, true, false, none, [], Str, arith, lookup-insert,
  lookup-erase, ◌==◌, ==_refl, Result, ok, if◌then◌else◌,
}
use temporal_entity.Entity.Command.{Payload, Codec}
use temporal_entity.K8slib.Config.{Config, GetResult}
use temporal_entity.K8slib.Handlers.{
  own_id, poll_gone, after_check, await_gone, delete_and_wait_gone,
}
use temporal_entity.K8slib.Fake.{
  Cluster, key, error_at, converged, apply, get, remove, fake_activities,
}

-- What a `Get` answers.
abbrev pub seen : Str → Str → Cluster → Result GetResult
seen gvk id c = (get gvk id c).1

-- After an `Apply` that succeeds, a `Get` of the object finds its manifest, advanced once by the
-- cluster's hook; a `Get` of an object with another key answers as before.
pub get-apply :
    (gvk id other_gvk other : Str) (manifest : Payload) (c : Cluster)
    → error_at (key gvk id) c.fail_apply ≡ none
    → seen other_gvk other (apply gvk id manifest c).0 ≡ (
        if key gvk id == key other_gvk other
        then ok (record { manifest = converged c manifest; found = true })
        else seen other_gvk other c)
unfolding apply get
get-apply gvk id other_gvk other manifest c h =
    ground (arith, lookup-insert (key gvk id) (key other_gvk other) manifest c.objects, h)

-- After a `Delete` that succeeds, a `Get` of the object finds nothing; a `Get` of an object with
-- another key answers as before.
pub get-remove :
    (gvk id other_gvk other : Str) (c : Cluster)
    → error_at (key gvk id) c.fail_delete ≡ none
    → seen other_gvk other (remove gvk id c).0 ≡ (
        if key gvk id == key other_gvk other
        then ok (record { manifest = []; found = false })
        else seen other_gvk other c)
unfolding remove get
get-remove gvk id other_gvk other c h =
    ground (arith, lookup-erase (key gvk id) (key other_gvk other) c.objects, h)

module _ {T : Type 0} (json : Codec T) (nothing : T) (digest : Payload → Str) (decimal : ℕ → Str)
    (cfg : Config T) (full : Str) where
  abbrev this : Str
  this = own_id json nothing digest decimal fake_activities cfg full

  get-missing :
      (c : Cluster)
      → lookup (key cfg.gvk this) c.objects ≡ none
      → get cfg.gvk this c ≡ (c, ok (record { manifest = []; found = false }))
  unfolding get
  get-missing c h = rw (h, get) refl

  poll_gone-stays :
      (n : ℕ) (c : Cluster)
      → lookup (key cfg.gvk this) c.objects ≡ none
      → poll_gone json nothing digest decimal fake_activities cfg full (suc n) c ≡ (c, none)
  unfolding poll_gone after_check
  poll_gone-stays n c h =
      ap
        (λ r.
          after_check json nothing digest decimal fake_activities cfg full r.0 r.1
            (λ u. poll_gone json nothing digest decimal fake_activities cfg full n u))
        (get-missing c h)

  remove-obeys :
      (c : Cluster)
      → error_at (key cfg.gvk this) c.fail_delete ≡ none
      → remove cfg.gvk this c ≡ (record c { objects = erase (key cfg.gvk this) c.objects }, none)
  unfolding remove
  remove-obeys c h = rw (h, remove) refl

  -- `deleteAndWaitGone` takes the object out of the cluster and changes nothing else.
  pub delete_and_wait_gone-removes :
      (n : ℕ) (c : Cluster)
      → cfg.poll_attempts ≡ suc n
      → error_at (key cfg.gvk this) c.fail_delete ≡ none
      → delete_and_wait_gone json nothing digest decimal fake_activities cfg full c
        ≡ (record c { objects = erase (key cfg.gvk this) c.objects }, none)
  unfolding delete_and_wait_gone await_gone
  delete_and_wait_gone-removes n c p h =
      let gone : Cluster = record c { objects = erase (key cfg.gvk this) c.objects } in
      let missing : lookup (key cfg.gvk this) gone.objects ≡ none =
        lookup-erase (key cfg.gvk this) (key cfg.gvk this) c.objects
        ∙ (rw (==_refl (key cfg.gvk this)) refl) in
      ap (await_gone json nothing digest decimal fake_activities cfg full) (remove-obeys c h)
      ∙ ap (λ k. poll_gone json nothing digest decimal fake_activities cfg full k gone) p
      ∙ poll_gone-stays n gone missing

  -- On the in-memory cluster, if it is not told to fail the deletion and there is an attempt at all,
  -- `deleteAndWaitGone` succeeds.
  pub fake_deletion_ends :
      (n : ℕ) (c : Cluster)
      → cfg.poll_attempts ≡ suc n
      → error_at (key cfg.gvk this) c.fail_delete ≡ none
      → (delete_and_wait_gone json nothing digest decimal fake_activities cfg full c).1 ≡ none
  fake_deletion_ends n c p h = ap (λ r. r.1) (delete_and_wait_gone-removes n c p h)

-- ===== src/Entdefine/Serial/Simulation.antt =====
-- Each piece of the main loop of pkg/entdefine/loop.go against what its event does to the entity.
use temporal_entity.Base.{
  put_all, inl, inr, Option-cases, if_keeps, ◌≡◌, refl, ◌∙◌, ap, true, false, none, some, List, [],
  ◌∷◌, map, Str, arith, Dict, lookup, ◌==◌, Result, ok, err, Check,
}
use temporal_entity.Entity.Id.{RequestId}
use temporal_entity.Entity.State.{Phase, set_labels_command_name}
use temporal_entity.Entity.Command.{Payload, Codec}
use temporal_entity.Wire.{Envelope, CommandEnvelope, merge_labels, record_completed}
use temporal_entity.Wire.Cache.{HasCache}
use temporal_entity.Wire.Cache.Lookup.{record_completed-HasCache}
use temporal_entity.Wire.Cache.Entries.{remembered-record_completed}
use temporal_entity.Entdefine.Context.{Ctx, Mutation, view, mutate, mutate_all}
use temporal_entity.Entdefine.Definition.{Definition, CommandImpl}
use temporal_entity.Entdefine.Loop.{
  Machine, rejected, upsert, mirror_labels, with_phase, ctx, rejected_error, unknown_error,
  value_of, error_of, reject_all, patch_labels, run_set_labels, run_unknown, finish_command,
  begin_delete, finish_drain, finish_finalize, finish_reconcile, settle_init,
}
use temporal_entity.Entdefine.Dedup.{HasCache-of_same}
use temporal_entity.Entdefine.Frame.{mutate_all-SameChassis, merge_labels-SameChassis, env-upsert}
use temporal_entity.Entdefine.Serial.{
  Entity, of_parts, entity_of, patched, change, change_all, seen, remember, serve_declared,
  serve_labels, serve, serve_tick, serve_finalizer, replay,
}

module _ {W Spec State : Type 0} where
  -- Publishing is invisible.
  pub entity_of-upsert :
      (d : Definition W Spec State) (m : Machine W Spec State)
      → entity_of (upsert d m) ≡ entity_of m
  unfolding upsert
  entity_of-upsert d m = ground arith

  pub entity_of-mirror_labels :
      (d : Definition W Spec State) (m : Machine W Spec State)
      → entity_of (mirror_labels d m) ≡ entity_of m
  unfolding mirror_labels
  entity_of-mirror_labels d m = ground arith

  pub of_parts-merge_labels :
      (w : W) (patch : Dict Str) (env : Envelope Spec State)
      → of_parts w (merge_labels patch env).0 ≡ patched patch (of_parts w env)
  unfolding merge_labels
  of_parts-merge_labels w patch env = refl

  of_parts-mutate :
      (w : W) (u : Mutation Spec State) (c : Ctx Spec State)
      → of_parts w (mutate u c).env ≡ change u (of_parts w c.env)
  unfolding mutate change merge_labels
  of_parts-mutate w (Mutation.put_spec s) c = refl
  of_parts-mutate w (Mutation.put_state s) c = refl
  of_parts-mutate w (Mutation.put_label k v) c = ground arith

  -- The calls of a handler on its `Ctx` are the changes of the entity.
  pub of_parts-mutate_all :
      (w : W) (us : List (Mutation Spec State)) (c : Ctx Spec State)
      → of_parts w (mutate_all us c).env ≡ change_all us (of_parts w c.env)
  unfolding mutate_all change_all
  of_parts-mutate_all w [] c = refl
  of_parts-mutate_all w (u ∷ us) c =
      of_parts-mutate_all w us (mutate u c) ∙ ap (change_all us) (of_parts-mutate w u c)

  world-change_all :
      (us : List (Mutation Spec State)) (v : W) (s : Entity W Spec State)
      → change_all us (record s { world = v }) ≡ record (change_all us s) { world = v }
  unfolding change_all change
  world-change_all [] v s = refl
  world-change_all (Mutation.put_spec x ∷ us) v s = world-change_all us v (record s { spec = x })
  world-change_all (Mutation.put_state x ∷ us) v s = world-change_all us v (record s { state = x })
  world-change_all (Mutation.put_label k x ∷ us) v s =
      world-change_all us v (patched ((k, x) ∷ []) s)

  -- `RecordCompleted` is remembering.
  pub of_parts-record_completed :
      (w : W) (id : RequestId) (r : Result Payload) (env : Envelope Spec State)
      → HasCache env
      → of_parts w (record_completed id (value_of r) (error_of r) env)
        ≡ remember id r (of_parts w env)
  of_parts-record_completed w id r env h =
      let kept = remembered-record_completed id (value_of r) (error_of r) env h in
      unfold record_completed in
      (λ i. record {
        world = w;
        spec = env.spec;
        state = env.state;
        labels = env.labels;
        memory = kept i;
      })

module _ {W Spec State : Type 0} (patches : Codec (Dict Str)) (d : Definition W Spec State) where
  sees_ready :
      (m : Machine W Spec State) → m.env.phase ≡ Phase.ready → view (ctx m) ≡ seen (entity_of m)
  unfolding view
  sees_ready m ready = λ i. record {
    spec = m.env.spec;
    state = m.env.state;
    phase = ready i;
    labels = put_all [] m.env.labels;
  }

  -- The rest of a declared command, on what its handler returned.
  serves_returned :
      (id : RequestId) (m : Machine W Spec State)
      (r : W × List (Mutation Spec State) × Result Payload)
      → HasCache m.env
      → of_parts r.0
          (record_completed id (value_of r.2) (error_of r.2) (mutate_all r.1 (ctx m)).env)
        ≡ remember id r.2 (record (change_all r.1 (entity_of m)) { world = r.0 })
  serves_returned id m (w, us, r) h =
      let s = mutate_all-SameChassis us (ctx m) in
      of_parts-record_completed w id r (mutate_all us (ctx m)).env
        (HasCache-of_same m.env (mutate_all us (ctx m)).env s.completed s.completed_order h)
      ∙ ap (remember id r) (of_parts-mutate_all w us (ctx m) ∙ world-change_all us w (entity_of m))

  pub finish_command-serves :
      (cmd : CommandImpl W Spec State) (c : CommandEnvelope) (m : Machine W Spec State)
      → HasCache m.env
      → m.env.phase ≡ Phase.ready
      → entity_of (finish_command patches d cmd c m) ≡ serve_declared patches d cmd c (entity_of m)
  unfolding finish_command serve_declared
  finish_command-serves cmd c m h ready =
      entity_of-mirror_labels d _
      ∙ serves_returned c.request_id m (cmd.exec m.world (view (ctx m)) c.payload) h
      ∙ ap
          (λ v.
            let (w, us, r) = cmd.exec m.world v c.payload in
            remember c.request_id r (record (change_all us (entity_of m)) { world = w }))
          (sees_ready m ready)

  patch_labels-serves :
      (c : CommandEnvelope) (patch : Result (Dict Str)) (m : Machine W Spec State)
      → HasCache m.env
      → entity_of (patch_labels patches d c patch m) ≡ serve_labels patches d c patch (entity_of m)
  unfolding patch_labels serve_labels
  patch_labels-serves c (ok patch) m h =
      let s = merge_labels-SameChassis patch m.env in
      of_parts-record_completed m.world c.request_id (ok []) (merge_labels patch m.env).0
        (HasCache-of_same m.env (merge_labels patch m.env).0 s.completed s.completed_order h)
      ∙ ap (remember c.request_id (ok [])) (of_parts-merge_labels m.world patch m.env)
  patch_labels-serves c (err e) m h = of_parts-record_completed m.world c.request_id (err e) m.env h

  -- The three ways in which the loop executes a command are `serve`.
  pub run_set_labels-serves :
      (c : CommandEnvelope) (m : Machine W Spec State)
      → HasCache m.env
      → (c.name == set_labels_command_name) ≡ true
      → entity_of (run_set_labels patches d c m) ≡ serve patches d c (entity_of m)
  unfolding run_set_labels serve
  run_set_labels-serves c m h built_in =
      rw built_in
        (entity_of-mirror_labels d _ ∙ patch_labels-serves c (patches.unmarshal c.payload) m h)

  pub run_unknown-serves :
      (c : CommandEnvelope) (m : Machine W Spec State)
      → HasCache m.env
      → (c.name == set_labels_command_name) ≡ false
      → lookup c.name d.commands ≡ none
      → entity_of (run_unknown patches d c m) ≡ serve patches d c (entity_of m)
  unfolding run_unknown serve
  run_unknown-serves c m h declared unknown =
      rw (declared, unknown)
        (of_parts-record_completed m.world c.request_id (err (unknown_error c)) m.env h)

  pub serve_declared-serve :
      (cmd : CommandImpl W Spec State) (c : CommandEnvelope) (s : Entity W Spec State)
      → (c.name == set_labels_command_name) ≡ false
      → lookup c.name d.commands ≡ some cmd
      → serve patches d c s ≡ serve_declared patches d cmd c s
  unfolding serve
  serve_declared-serve cmd c s declared found = rw (declared, found) refl

  reject_all-replays :
      (w : W) (cs : List CommandEnvelope) (env : Envelope Spec State)
      → HasCache env
      → of_parts w (reject_all cs env) ≡ replay patches d (map rejected cs) (of_parts w env)
  unfolding reject_all replay
  reject_all-replays w [] env h = refl
  reject_all-replays w (c ∷ cs) env h =
      reject_all-replays w cs (record_completed c.request_id [] (some (rejected_error c)) env)
        (record_completed-HasCache c.request_id [] (some (rejected_error c)) env h)
      ∙ ap (replay patches d (map rejected cs))
          (of_parts-record_completed w c.request_id (err (rejected_error c)) env h)

  -- The deletion rejects the queue.
  pub begin_delete-replays :
      (m : Machine W Spec State)
      → HasCache m.env
      → entity_of (begin_delete patches d m)
        ≡ replay patches d (map rejected m.env.pending) (entity_of m)
  unfolding begin_delete
  begin_delete-replays m h =
      let n = upsert d (with_phase Phase.deleting m) in
      let same : entity_of n ≡ entity_of m = entity_of-upsert d (with_phase Phase.deleting m) in
      reject_all-replays n.world m.env.pending n.env (rw env-upsert h)
      ∙ ap (replay patches d (map rejected m.env.pending)) same

  pub finish_drain-entity :
      (m : Machine W Spec State) → entity_of (finish_drain patches d m) ≡ entity_of m
  unfolding finish_drain
  finish_drain-entity m = elim (Option-cases d.finalize) [
    | inl missing ↦ rw missing (entity_of-upsert d (with_phase Phase.deleted m))
    | inr (f, found) ↦ rw found refl
  ]

  -- What the finalizer or the creation returned is the world and the state.
  abbrev pub returned : W × State × Check → Entity W Spec State → Entity W Spec State
  returned r s = record s { world = r.0; state = r.1 }

  pub finish_finalize-entity :
      (r : W × State × Check) (m : Machine W Spec State)
      → entity_of (finish_finalize patches d r m) ≡ returned r (entity_of m)
  unfolding finish_finalize
  finish_finalize-entity (w, st, none) m = entity_of-upsert d _
  finish_finalize-entity (w, st, some e) m = entity_of-upsert d _

  pub serve_finalizer-returned :
      (f : W → State → W × State × Check) (s : Entity W Spec State)
      → d.finalize ≡ some f
      → serve_finalizer patches d s ≡ returned (f s.world s.state) s
  unfolding serve_finalizer
  serve_finalizer-returned f s found = rw found refl

  pub settle_init-entity :
      (r : W × State × Check) (m : Machine W Spec State)
      → entity_of (settle_init patches d r m) ≡ returned r (entity_of m)
  unfolding settle_init
  settle_init-entity (w, st, none) m = entity_of-upsert d _
  settle_init-entity (w, st, some e) m =
      if_keeps (λ (n : Machine W Spec State). entity_of n ≡ returned (w, st, some e) (entity_of m))
        m.env.marked_for_deletion _ _ (λ _. refl) (λ _. entity_of-upsert d _)

  -- A tick.
  pub finish_reconcile-serves :
      (m : Machine W Spec State)
      → m.env.phase ≡ Phase.ready
      → entity_of (finish_reconcile patches d m) ≡ serve_tick patches d (entity_of m)
  unfolding finish_reconcile serve_tick
  finish_reconcile-serves m ready = elim (Option-cases d.reconcile) [
    | inl missing ↦ rw missing refl
    | inr (f, found) ↦ rw found (
        ticks_returned (f m.world (view (ctx m)))
        ∙ ap
            (λ v.
              let (w, us, e) = f m.world v in record (change_all us (entity_of m)) { world = w })
            (sees_ready m ready))
  ]
    where
      ticks_returned :
          (r : W × List (Mutation Spec State) × Check)
          → of_parts r.0 (mutate_all r.1 (ctx m)).env
            ≡ record (change_all r.1 (entity_of m)) { world = r.0 }
      ticks_returned (w, us, e) =
          of_parts-mutate_all w us (ctx m) ∙ world-change_all us w (entity_of m)

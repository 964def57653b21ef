-- ===== src/Entdefine/Effects/Stages.antt =====
-- What the creation, the deletion and a tick do, in pkg/entdefine/loop.go.
use mathlib.Core.List.{append-nil}
use temporal_entity.Base.{
  ◌≡◌, Error, wrap, codes, refl, ◌⊎◌, inl, inr, sym, if_keeps, true, false, none, some, [], ◌∷◌,
  map, Str, Dict, Option-cases, Check,
}
use temporal_entity.Entity.State.{Phase}
use temporal_entity.Entity.Command.{Codec}
use temporal_entity.Entdefine.Context.{view}
use temporal_entity.Entdefine.Definition.{Definition}
use temporal_entity.Entdefine.Loop.{
  Machine, rejected, reconciled, finalized, at_top, at_drain, at_finalize, closed, completed,
  failed, upsert, with_phase, ctx, begin_delete, finish_drain, finish_finalize, finish_reconcile,
  settle_init,
}
use temporal_entity.Entdefine.Frame.{
  mutate_all-SameChassis, reject_all_frame, env-upsert, history-upsert, waiting-upsert,
}
use temporal_entity.Entdefine.Effects.{Effect}

module _ {W Spec State : Type 0} (patches : Codec (Dict Str)) (d : Definition W Spec State) where
  pub begin_delete-Effect :
      (m : Machine W Spec State)
      → Effect m
          (begin_delete patches d m)
          (map rejected m.env.pending)
          at_drain
          Phase.deleting
          m.env.initialized
          []
  unfolding begin_delete
  begin_delete-Effect m =
      let n = upsert d (with_phase Phase.deleting m) in
      let f = reject_all_frame m.env.pending n.env in
      record {
        history = refl;
        pc = refl;
        phase = rw (f.1, env-upsert);
        initialized = rw (f.0, env-upsert);
        pending = refl;
        waiting = rw waiting-upsert;
        marked = rw (f.2, env-upsert);
      }

  -- The drain ends the run, or goes on to the finalizer.
  pub finish_drain-Effect :
      (m : Machine W Spec State)
      → Effect m
          (finish_drain patches d m)
          []
          at_finalize
          m.env.phase
          m.env.initialized
          m.env.pending
        ⊎ Effect m
            (finish_drain patches d m)
            []
            (closed completed)
            Phase.deleted
            m.env.initialized
            m.env.pending
  unfolding finish_drain
  finish_drain-Effect m = elim (Option-cases d.finalize) [
    | inr (f, found) ↦ inl (
        rw found (record {
          history = sym (append-nil m.history);
          pc = refl;
          phase = refl;
          initialized = refl;
          pending = refl;
          waiting = refl;
          marked = refl;
        }))
    | inl missing ↦ inr (
        rw missing (record {
          history = rw history-upsert (sym (append-nil m.history));
          pc = refl;
          phase = rw env-upsert;
          initialized = rw env-upsert;
          pending = rw env-upsert;
          waiting = rw waiting-upsert;
          marked = rw env-upsert;
        }))
  ]

  -- The finalizer ends the run, in one of two ways.
  pub finish_finalize-Effect :
      (r : W × State × Check) (m : Machine W Spec State)
      → Effect m
          (finish_finalize patches d r m)
          (finalized r.2 ∷ [])
          (closed completed)
          Phase.deleted
          m.env.initialized
          m.env.pending
        ⊎ ((f : Error) × Effect m
              (finish_finalize patches d r m)
              (finalized r.2 ∷ [])
              (closed (failed f))
              Phase.delete_failed
              m.env.initialized
              m.env.pending)
  unfolding finish_finalize
  finish_finalize-Effect (w, st, none) m = inl (record {
    history = rw history-upsert;
    pc = refl;
    phase = rw env-upsert;
    initialized = rw env-upsert;
    pending = rw env-upsert;
    waiting = rw waiting-upsert;
    marked = rw env-upsert;
  })
  finish_finalize-Effect (w, st, some e) m = inr (
    wrap (codes "entity finalize") e,
    record {
      history = rw history-upsert;
      pc = refl;
      phase = rw env-upsert;
      initialized = rw env-upsert;
      pending = rw env-upsert;
      waiting = rw waiting-upsert;
      marked = rw env-upsert;
    },
  )

  pub finish_reconcile-Effect :
      (m : Machine W Spec State)
      → (finish_reconcile patches d m ≡ m)
        ⊎ ((e : Check) × Effect m
              (finish_reconcile patches d m)
              (reconciled e ∷ [])
              at_top
              m.env.phase
              m.env.initialized
              m.env.pending)
  unfolding finish_reconcile
  finish_reconcile-Effect m = elim (Option-cases d.reconcile) [
    | inl missing ↦ inl (rw missing)
    | inr (f, found) ↦
        let (w, us, e) = f m.world (view (ctx m)) in
        let s = mutate_all-SameChassis us (ctx m) in
        inr (
          e,
          rw found (record {
            history = refl;
            pc = refl;
            phase = sym s.phase;
            initialized = sym s.initialized;
            pending = sym s.pending;
            waiting = refl;
            marked = sym s.marked_for_deletion;
          }),
        )
  ]

  -- The creation succeeds, is given up for the deletion, or ends the run.
  pub settle_init-Effect :
      (r : W × State × Check) (m : Machine W Spec State)
      → Effect m (settle_init patches d r m) [] at_top Phase.ready true m.env.pending
        ⊎ (((m.env.marked_for_deletion ≡ true)
              × Effect m
                  (settle_init patches d r m)
                  []
                  at_top
                  m.env.phase
                  m.env.initialized
                  m.env.pending)
            ⊎ ((f : Error) × (m.env.marked_for_deletion ≡ false)
                × Effect m
                    (settle_init patches d r m)
                    []
                    (closed (failed f))
                    Phase.create_failed
                    m.env.initialized
                    m.env.pending))
  unfolding settle_init
  settle_init-Effect (w, st, none) m = inl (record {
    history = rw history-upsert (sym (append-nil m.history));
    pc = refl;
    phase = rw env-upsert;
    initialized = rw env-upsert;
    pending = rw env-upsert;
    waiting = rw waiting-upsert;
    marked = rw env-upsert;
  })
  settle_init-Effect (w, st, some e) m =
      if_keeps
        (λ (n : Machine W Spec State).
          Effect m n [] at_top Phase.ready true m.env.pending
          ⊎ (((m.env.marked_for_deletion ≡ true)
                × Effect m n [] at_top m.env.phase m.env.initialized m.env.pending)
              ⊎ ((f : Error) × (m.env.marked_for_deletion ≡ false)
                  × Effect m n [] (closed (failed f)) Phase.create_failed m.env.initialized
                      m.env.pending)))
        m.env.marked_for_deletion _ _
        (λ marked. inr (
          inl (
            marked,
            record {
              history = sym (append-nil m.history);
              pc = refl;
              phase = refl;
              initialized = refl;
              pending = refl;
              waiting = refl;
              marked = refl;
            },
          )))
        (λ unmarked. inr (
          inr (
            wrap (codes "entity init") e,
            unmarked,
            record {
              history = rw history-upsert (sym (append-nil m.history));
              pc = refl;
              phase = rw env-upsert;
              initialized = rw env-upsert;
              pending = rw env-upsert;
              waiting = rw waiting-upsert;
              marked = rw env-upsert;
            },
          )))

-- ===== src/Entdefine/Serving.antt =====
-- Progress of the main loop on its queue.
use mathlib.Core.List.{append_assoc, append-nil}
use temporal_entity.Base.{
  ◌≡◌, refl, ◌∙◌, ap, sym, inl, inr, true, false, none, some, List, [], ◌∷◌, ◌++◌, map, Str, Dict,
  lookup, Option-cases, Bool-cases, ◌==◌, if◌then◌else◌,
}
use temporal_entity.Entity.State.{set_labels_command_name}
use temporal_entity.Entity.Command.{Codec}
use temporal_entity.Wire.{CommandEnvelope}
use temporal_entity.Entdefine.Definition.{Definition, CommandImpl}
use temporal_entity.Entdefine.Loop.{
  Machine, Pc, executed, at_top, at_command, go, proceed, proceed_from, iterate, begin_delete,
  dispatch, next_command, run_set_labels, run_unknown, finish_command, with_pending,
}
use temporal_entity.Entdefine.Effects.Commands.{
  run_set_labels-Effect, run_unknown-Effect, finish_command-Effect,
}

module _ {W Spec State : Type 0} (patches : Codec (Dict Str)) (workflow_id : Str)
    (d : Definition W Spec State) where
  -- The main coroutine goes on some number of times, while nothing else happens.
  pub data Advances : Machine W Spec State → Machine W Spec State → Type 0 where
    stays : {m : Machine W Spec State} → Advances m m
    advances :
        {m n o : Machine W Spec State}
        → proceed patches workflow_id d m ≡ some n
        → Advances n o
        → Advances m o

  Advances-trans : {m n o : Machine W Spec State} → Advances m n → Advances n o → Advances m o
  Advances-trans stays b = b
  Advances-trans (advances h a) b = advances h (Advances-trans a b)

  -- `n` is `m` after the commands, at the head of the loop with this queue.
  pub record Served (cs queue : List CommandEnvelope) (m n : Machine W Spec State) : Type 0 where
    pub pc : n.pc ≡ at_top
    pub pending : n.env.pending ≡ queue
    pub history : n.history ≡ m.history ++ map executed cs
    pub marked : n.env.marked_for_deletion ≡ m.env.marked_for_deletion

  iterate-served :
      (c : CommandEnvelope) (cs : List CommandEnvelope) (m : Machine W Spec State)
      → m.env.marked_for_deletion ≡ false
      → m.env.pending ≡ c ∷ cs
      → iterate patches d m ≡ dispatch patches d c (with_pending patches d cs m)
  unfolding iterate next_command
  iterate-served c cs m u q =
      ap (λ b. if b then begin_delete patches d m else next_command patches d m.env.pending m) u
      ∙ ap (λ l. next_command patches d l m) q

  pub proceed-at :
      (m : Machine W Spec State) (pc : Pc Spec State)
      → m.pc ≡ pc
      → proceed patches workflow_id d m ≡ proceed_from patches workflow_id d pc m
  unfolding proceed
  proceed-at m pc h = ap (λ (x : Pc Spec State). proceed_from patches workflow_id d x m) h

  proceed-served :
      (c : CommandEnvelope) (cs : List CommandEnvelope) (m : Machine W Spec State)
      → m.pc ≡ at_top
      → m.env.marked_for_deletion ≡ false
      → m.env.pending ≡ c ∷ cs
      → proceed patches workflow_id d m ≡ some (dispatch patches d c (with_pending patches d cs m))
  unfolding proceed_from
  proceed-served c cs m h u q = proceed-at m at_top h ∙ ap some (iterate-served c cs m u q)

  dispatch-built_in :
      (c : CommandEnvelope) (m : Machine W Spec State)
      → (c.name == set_labels_command_name) ≡ true
      → dispatch patches d c m ≡ run_set_labels patches d c m
  unfolding dispatch
  dispatch-built_in c m h = rw h refl

  dispatch-unknown :
      (c : CommandEnvelope) (m : Machine W Spec State)
      → (c.name == set_labels_command_name) ≡ false
      → lookup c.name d.commands ≡ none
      → dispatch patches d c m ≡ run_unknown patches d c m
  unfolding dispatch
  dispatch-unknown c m h k = rw (h, k) refl

  dispatch-declared :
      (c : CommandEnvelope) (cmd : CommandImpl W Spec State) (m : Machine W Spec State)
      → (c.name == set_labels_command_name) ≡ false
      → lookup c.name d.commands ≡ some cmd
      → dispatch patches d c m ≡ go (at_command c) m
  unfolding dispatch
  dispatch-declared c cmd m h k = rw (h, k) refl

  proceed-command :
      (c : CommandEnvelope) (cmd : CommandImpl W Spec State) (m : Machine W Spec State)
      → lookup c.name d.commands ≡ some cmd
      → proceed patches workflow_id d (go (at_command c) m)
        ≡ some (finish_command patches d cmd c (go (at_command c) m))
  unfolding proceed proceed_from
  proceed-command c cmd m found =
      ap
        (λ o. elim o [
          | none ↦ none
          | some f ↦ some (finish_command patches d f c (go (at_command c) m))
        ])
        found

  -- The next command of the queue is served in one or two steps.
  serve_next :
      (c : CommandEnvelope) (cs : List CommandEnvelope) (m : Machine W Spec State)
      → m.pc ≡ at_top
      → m.env.marked_for_deletion ≡ false
      → m.env.pending ≡ c ∷ cs
      → (n : Machine W Spec State) × Advances m n × Served (c ∷ []) cs m n
  serve_next c cs m h u q = elim (Bool-cases (c.name == set_labels_command_name)) [
    | inl built_in ↦
        let e = run_set_labels-Effect patches d c k in
        (
          run_set_labels patches d c k,
          advances (first ∙ ap some (dispatch-built_in c k built_in)) stays,
          record { pc = e.pc ∙ h; pending = e.pending; history = e.history; marked = e.marked },
        )
    | inr declared ↦ elim (Option-cases (lookup c.name d.commands)) [
      | inl unknown ↦
          let e = run_unknown-Effect patches d c k in
          (
            run_unknown patches d c k,
            advances (first ∙ ap some (dispatch-unknown c k declared unknown)) stays,
            record { pc = e.pc ∙ h; pending = e.pending; history = e.history; marked = e.marked },
          )
      | inr (cmd, found) ↦
          let e = finish_command-Effect patches d cmd c (go (at_command c) k) in
          (
            finish_command patches d cmd c (go (at_command c) k),
            advances (first ∙ ap some (dispatch-declared c cmd k declared found))
                (advances (proceed-command c cmd k found) stays),
            record { pc = e.pc; pending = e.pending; history = e.history; marked = e.marked },
          )
    ]
  ]
    where
      k : Machine W Spec State
      k = with_pending patches d cs m

      first : proceed patches workflow_id d m ≡ some (dispatch patches d c k)
      first = proceed-served c cs m h u q

  serve_all :
      (cs : List CommandEnvelope) (m : Machine W Spec State)
      → m.pc ≡ at_top
      → m.env.marked_for_deletion ≡ false
      → m.env.pending ≡ cs
      → (n : Machine W Spec State) × Advances m n × Served cs [] m n
  serve_all [] m h u q = (
    m,
    stays,
    record { pc = h; pending = q; history = sym (append-nil m.history); marked = refl },
  )
  serve_all (c ∷ cs) m h u q =
      let (n, a, s) = serve_next c cs m h u q in
      let (o, b, t) = serve_all cs n s.pc (s.marked ∙ u) s.pending in
      (
        o,
        Advances-trans a b,
        record {
          pc = t.pc;
          pending = t.pending;
          history =
              t.history
              ∙ ap (λ l. l ++ map executed cs) s.history
              ∙ append_assoc m.history (executed c ∷ []) (map executed cs);
          marked = t.marked ∙ s.marked;
        },
      )

  -- From the head of the loop, if the entity is not marked for deletion, the main coroutine by its
  -- own steps executes every command of the queue, in the order of the queue, and is back at the
  -- head of the loop with an empty queue.
  pub queue-Served :
      (m : Machine W Spec State)
      → m.pc ≡ at_top
      → m.env.marked_for_deletion ≡ false
      → (n : Machine W Spec State) × Advances m n × Served m.env.pending [] m n
  queue-Served m h u = serve_all m.env.pending m h u refl

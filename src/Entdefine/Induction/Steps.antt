-- ===== src/Entdefine/Induction/Steps.antt =====
-- A predicate that is kept by each piece holds after every step, and so in a whole run.
use mathlib.Core.Path.{subst}
use temporal_entity.Base.{
  ◌≡◌, refl, inl, inr, true, false, not, ◌||◌, Option, none, some, List, [], ◌∷◌, Str, Dict, lookup,
  contains, is_nil, nil_of_is_nil, guarded, if_keeps, ◌==◌, Check, Option-cases, Bool-cases, ltb,
}
use temporal_entity.Entity.Id.{RequestId}
use temporal_entity.Entity.State.{set_labels_command_name}
use temporal_entity.Entity.Command.{Codec, CommandName}
use temporal_entity.Wire.{CommandEnvelope, UpdateArgs, OpResult}
use temporal_entity.Entdefine.Definition.{Definition}
use temporal_entity.Entdefine.Loop.{
  Machine, Pc, Action, Reach, here, next, act, proceeds, inits, cancels_init, ticks, updates,
  resumes, deletes, suggests, at_init, at_cancelled_init, at_top, at_command, at_drain, at_finalize,
  at_continue, at_idle, at_reconcile, closed, continued, go, note, answered, is_blocked, iterate,
  next_command, dispatch, with_pending, can_wanted, finish_drain, wake_condition, accept_update,
  receive_update, validate_update, update_result, erase_one, resume, proceed_from, init_from,
  cancel_from, tick_from,
}
use temporal_entity.Entdefine.Induction.{Kept}

module _ {W Spec State : Type 0} (patches : Codec (Dict Str)) (workflow_id : Str)
    (d : Definition W Spec State) (P : Machine W Spec State → Type 0)
    (k : Kept patches workflow_id d P) where
  some_keeps : {n o : Machine W Spec State} → P n → some n ≡ some o → P o
  some_keeps {n} {o} p e = let q : n ≡ o = cc e in subst P q p

  dispatch_keeps :
      (c : CommandEnvelope) (cs : List CommandEnvelope) (m : Machine W Spec State)
      → m.pc ≡ at_top
      → m.env.marked_for_deletion ≡ false
      → m.env.pending ≡ c ∷ cs
      → P m
      → P (dispatch patches d c (with_pending patches d cs m))
  unfolding dispatch
  dispatch_keeps c cs m h u q p =
      if_keeps P (c.name == set_labels_command_name) _ _
        (λ built_in. k.labels c cs m h u q built_in p)
        (λ declared. elim (Option-cases (lookup c.name d.commands)) [
          | inl unknown ↦ rw unknown (k.unknowns c cs m h u q declared unknown p)
          | inr (cmd, found) ↦ rw found (k.takes c cs m h u q declared p)
        ])

  next_keeps :
      (cs : List CommandEnvelope) (m : Machine W Spec State)
      → m.pc ≡ at_top
      → m.env.marked_for_deletion ≡ false
      → m.env.pending ≡ cs
      → P m
      → P (next_command patches d cs m)
  unfolding next_command
  next_keeps [] m h u q p =
      if_keeps P (can_wanted d m) _ _ (λ wanted. k.rolls m h u q wanted p) (λ _. k.idles m h u q p)
  next_keeps (c ∷ cs) m h u q p = dispatch_keeps c cs m h u q p

  iterate_keeps : (m : Machine W Spec State) → m.pc ≡ at_top → P m → P (iterate patches d m)
  unfolding iterate
  iterate_keeps m h p =
      if_keeps P m.env.marked_for_deletion _ _ (λ marked. k.begins_delete m h marked p)
        (λ unmarked. next_keeps m.env.pending m h unmarked refl p)

  proceed_keeps :
      (pc : Pc Spec State) (m o : Machine W Spec State)
      → m.pc ≡ pc
      → P m
      → proceed_from patches workflow_id d pc m ≡ some o
      → P o
  unfolding proceed_from
  proceed_keeps at_top m o h p e = some_keeps (iterate_keeps m h p) e
  proceed_keeps (at_command c) m o h p e = elim (Option-cases (lookup c.name d.commands)) [
    | inl missing ↦ cc (e, missing)
    | inr (cmd, found) ↦ some_keeps (k.commands cmd c m h found p) (rw (found, proceed_from) at e)
  ]
  proceed_keeps at_drain m o h p e =
      let (quiet, e') = guarded (is_nil m.waiting) (some (finish_drain patches d m)) o e in
      some_keeps (k.drains m h (nil_of_is_nil m.waiting quiet) p) e'
  proceed_keeps at_finalize m o h p e = elim (Option-cases d.finalize) [
    | inl missing ↦ cc (rw (missing, proceed_from) at e)
    | inr (f, found) ↦
        some_keeps (k.finalizes (f m.world m.env.state) m h (f, found, refl) p)
          (rw (found, proceed_from) at e)
  ]
  proceed_keeps at_continue m o h p e =
      let (quiet, e') = guarded (is_nil m.waiting) (some (go (closed (continued m.env)) m)) o e in
      some_keeps (k.continues m h (nil_of_is_nil m.waiting quiet) p) e'
  proceed_keeps at_idle m o h p e =
      let (woken, e') = guarded (wake_condition patches d m) (some (go at_top m)) o e in
      some_keeps (k.wakes m h p) e'
  proceed_keeps at_reconcile m o h p e = some_keeps (k.reconciles m h p) e
  proceed_keeps at_init m o h p e = cc e
  proceed_keeps _ m o h p e = cc e

  init_keeps :
      (pc : Pc Spec State) (m o : Machine W Spec State)
      → m.pc ≡ pc
      → P m
      → init_from patches workflow_id d pc m ≡ some o
      → P o
  unfolding init_from
  init_keeps at_init m o h p e = elim (Option-cases d.init) [
    | inl missing ↦ cc (rw (missing, init_from) at e)
    | inr (f, found) ↦
        some_keeps (k.settles (f m.world false m.env.spec) m (inl h) (f, false, found, refl) p)
          (rw (found, init_from) at e)
  ]
  init_keeps at_cancelled_init m o h p e = elim (Option-cases d.init) [
    | inl missing ↦ cc (rw (missing, init_from) at e)
    | inr (f, found) ↦
        some_keeps (k.settles (f m.world true m.env.spec) m (inr h) (f, true, found, refl) p)
          (rw (found, init_from) at e)
  ]
  init_keeps _ m o h p e = cc e

  cancel_keeps :
      (pc : Pc Spec State) (m o : Machine W Spec State)
      → m.pc ≡ pc
      → P m
      → cancel_from patches workflow_id d pc m ≡ some o
      → P o
  unfolding cancel_from
  cancel_keeps at_init m o h p e =
      let (marked, e') = guarded m.env.marked_for_deletion (some (go at_cancelled_init m)) o e in
      some_keeps (k.cancels m h marked p) e'
  cancel_keeps _ m o h p e = cc e

  tick_keeps :
      (pc : Pc Spec State) (m o : Machine W Spec State)
      → m.pc ≡ pc
      → P m
      → tick_from patches workflow_id d pc m ≡ some o
      → P o
  unfolding tick_from
  tick_keeps at_idle m o h p e =
      elim (Bool-cases (wake_condition patches d m || not (ltb 0 d.reconcile_every))) [
        | inl woken ↦ cc (rw (woken, tick_from) at e)
        | inr asleep ↦ elim (Option-cases d.reconcile) [
          | inl missing ↦ cc (rw (asleep, missing, tick_from) at e)
          | inr (f, found) ↦ some_keeps (k.expires m h p) (rw (asleep, found, tick_from) at e)
        ]
      ]
  tick_keeps _ m o h p e = cc e

  receive_cases :
      (v : Option Check) (m n : Machine W Spec State)
      → P m
      → (v ≡ some none → P n)
      → P (elim v [ none ↦ m | some (some e) ↦ m | some none ↦ n ])
  receive_cases none m n p q = p
  receive_cases (some none) m n p q = q refl
  receive_cases (some (some e)) m n p q = p

  receive_keeps :
      (name : CommandName) (args : UpdateArgs) (m : Machine W Spec State)
      → is_blocked m ≡ true
      → P m
      → P (receive_update patches workflow_id d name args m)
  unfolding receive_update
  receive_keeps name args m b p =
      receive_cases (validate_update patches workflow_id d name args m) m
        (accept_update name args m) p (λ taken. k.accepts name args m b taken p)

  answer_keeps :
      (id : RequestId) (found : Option OpResult) (m o : Machine W Spec State)
      → is_blocked m ≡ true
      → contains id m.waiting ≡ true
      → lookup id m.env.completed ≡ found
      → P m
      → (elim found [
        | none ↦ none
        | some r ↦
            some
              (note (answered id (update_result r)) (record m { waiting = erase_one id m.waiting }))
      ])
        ≡ some o
      → P o
  answer_keeps id none m o b there f p e = cc e
  answer_keeps id (some r) m o b there f p e = some_keeps (k.answers id r m b there f p) e

  resume_keeps :
      (id : RequestId) (m o : Machine W Spec State)
      → is_blocked m ≡ true
      → P m
      → resume id m ≡ some o
      → P o
  unfolding resume
  resume_keeps id m o b p e =
      let (there, e') = guarded (contains id m.waiting) _ o e in
      answer_keeps id (lookup id m.env.completed) m o b there refl p e'

  -- One step keeps the predicate.
  pub act_keeps :
      (a : Action) (m o : Machine W Spec State) → P m → act patches workflow_id d a m ≡ some o → P o
  unfolding act
  act_keeps proceeds m o p e = proceed_keeps m.pc m o refl p e
  act_keeps inits m o p e = init_keeps m.pc m o refl p e
  act_keeps cancels_init m o p e = cancel_keeps m.pc m o refl p e
  act_keeps ticks m o p e = tick_keeps m.pc m o refl p e
  act_keeps (updates name args) m o p e =
      let (b, e') = guarded (is_blocked m) _ o e in some_keeps (receive_keeps name args m b p) e'
  act_keeps (resumes id) m o p e =
      let (b, e') = guarded (is_blocked m) _ o e in resume_keeps id m o b p e'
  act_keeps deletes m o p e =
      let (b, e') = guarded (is_blocked m) _ o e in some_keeps (k.deletions m b p) e'
  act_keeps suggests m o p e =
      let (b, e') = guarded (is_blocked m) _ o e in some_keeps (k.suggestions m b p) e'

  -- So does a whole run.
  pub reach_keeps : {m o : Machine W Spec State} → P m → Reach patches workflow_id d m o → P o
  reach_keeps p here = p
  reach_keeps p (next {n} {o} a r e) = act_keeps a n o (reach_keeps p r) e

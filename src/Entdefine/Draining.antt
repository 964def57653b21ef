-- ===== src/Entdefine/Draining.antt =====
-- Progress of a deletion: the handlers that return, and the end of the run.
use mathlib.Core.Path.{ap₂, subst}
use temporal_entity.Base.{
  ◌≡◌, refl, sym, ◌∙◌, ap, inl, inr, true, none, some, List, [], ◌∷◌, Str, Dict, lookup, contains,
  ==_refl, All, arith, Option-cases, Check, if◌then◌else◌,
}
use temporal_entity.Entity.Id.{RequestId}
use temporal_entity.Entity.State.{Phase}
use temporal_entity.Entity.Command.{Codec}
use temporal_entity.Wire.{OpResult}
use temporal_entity.Entdefine.Definition.{Definition}
use temporal_entity.Entdefine.Loop.{
  Machine, Pc, Outcome, Reach, here, next, act, resumes, proceeds, answered, at_drain, at_finalize,
  closed, completed, failed, go, note, proceed, proceed_from, finish_drain, finish_finalize, upsert,
  is_blocked, is_blocked_at, resume, erase_one, update_result,
}
use temporal_entity.Entdefine.Effects.Stages.{finish_drain-Effect, finish_finalize-Effect}
use temporal_entity.Entdefine.Serving.{proceed-at}

module _ {W Spec State : Type 0} (patches : Codec (Dict Str)) (workflow_id : Str)
    (d : Definition W Spec State) where
  unfinalized :
      (m : Machine W Spec State)
      → d.finalize ≡ none
      → (finish_drain patches d m).pc ≡ closed completed
  unfolding finish_drain
  unfinalized m missing = rw missing refl

  elsewhere : (pc : Pc Spec State) → pc ≡ at_finalize → pc ≡ closed completed → ⊥
  elsewhere pc h k = cc (h, k)

  drain-finalizes :
      (m : Machine W Spec State) (f : W → State → W × State × Check)
      → d.finalize ≡ some f
      → finish_drain patches d m ≡ go at_finalize m
  unfolding finish_drain
  drain-finalizes m f found = rw found refl

  finalizes :
      (m : Machine W Spec State) (f : W → State → W × State × Check)
      → d.finalize ≡ some f
      → act patches workflow_id d proceeds (go at_finalize m)
        ≡ some (finish_finalize patches d (f m.world m.env.state) (go at_finalize m))
  unfolding act proceed
  finalizes m f found = rw found refl

  drains :
      (m : Machine W Spec State)
      → m.pc ≡ at_drain
      → m.waiting ≡ []
      → act patches workflow_id d proceeds m ≡ some (finish_drain patches d m)
  unfolding act proceed_from
  drains m h w = proceed-at patches workflow_id d m at_drain h ∙ (rw w refl)

  -- After the drain the run closes.
  drained_closes :
      (m : Machine W Spec State)
      → m.pc ≡ at_drain
      → m.waiting ≡ []
      → (n : Machine W Spec State) × (e : Outcome Spec State) × Reach patches workflow_id d m n
        × (n.pc ≡ closed e)
        × (n.waiting ≡ [])
  drained_closes m h w = elim (Option-cases d.finalize) [
    | inl missing ↦ elim (finish_drain-Effect patches d m) [
      | inr e ↦ (
        finish_drain patches d m,
        completed,
        next proceeds here (drains m h w),
        e.pc,
        e.waiting ∙ w,
      )
      | inl e ↦ absurd (elsewhere _ e.pc (unfinalized m missing))
    ]
    | inr (f, found) ↦
        let n = go at_finalize m in
        let r = f n.world n.env.state in
        let two : Reach patches workflow_id d m (finish_finalize patches d r n) =
          next proceeds (next proceeds here (drains m h w ∙ ap some (drain-finalizes m f found)))
            (finalizes m f found) in
        elim (finish_finalize-Effect patches d r n) [
          | inl e ↦ (finish_finalize patches d r n, completed, two, e.pc, e.waiting ∙ w)
          | inr (g, e) ↦ (finish_finalize patches d r n, failed g, two, e.pc, e.waiting ∙ w)
        ]
  ]

  Reach-trans :
      {m n o : Machine W Spec State}
      → Reach patches workflow_id d m n
      → Reach patches workflow_id d n o
      → Reach patches workflow_id d m o
  Reach-trans a here = a
  Reach-trans a (next x b h) = next x (Reach-trans a b) h

  resume-answers :
      (id : RequestId) (r : OpResult) (ids : List RequestId) (m : Machine W Spec State)
      → contains id m.waiting ≡ true
      → lookup id m.env.completed ≡ some r
      → erase_one id m.waiting ≡ ids
      → resume id m ≡ some (note (answered id (update_result r)) (record m { waiting = ids }))
  unfolding resume
  resume-answers id r ids m present found erased =
      rw (present, found)
        (ap (λ l. some (note (answered id (update_result r)) (record m { waiting = l }))) erased)

  act-resumes :
      (id : RequestId) (m : Machine W Spec State)
      → is_blocked m ≡ true
      → act patches workflow_id d (resumes id) m ≡ resume id m
  unfolding act
  act-resumes id m b = ap (λ x. if x then resume id m else none) b

  -- All handlers return, and nothing else happens to the entity.
  pub record Drained (m n : Machine W Spec State) : Type 0 where
    pub reached : Reach patches workflow_id d m n
    pub pc : n.pc ≡ at_drain
    pub waiting : n.waiting ≡ []
    pub env : n.env ≡ m.env
    pub world : n.world ≡ m.world

  -- Every handler that is waited for has a recorded outcome.
  abbrev pub AllRecorded : List RequestId → Machine W Spec State → Type 0
  AllRecorded ids m = All (λ id. (r : OpResult) × (lookup id m.env.completed ≡ some r)) ids

  drain_from :
      (ids : List RequestId) (m : Machine W Spec State)
      → m.pc ≡ at_drain
      → m.waiting ≡ ids
      → AllRecorded ids m
      → (n : Machine W Spec State) × Drained m n
  drain_from [] m h w a =
      (m, record { reached = here; pc = h; waiting = w; env = refl; world = refl })
  drain_from (id ∷ ids) m h w a =
      let (r, found) = a.0 in
      let n : Machine W Spec State =
        note (answered id (update_result r)) (record m { waiting = ids }) in
      let (o, e) = drain_from ids n h refl a.1 in
      (
        o,
        record {
          reached = Reach-trans (next (resumes id) here answers) e.reached;
          pc = e.pc;
          waiting = e.waiting;
          env = e.env;
          world = e.world;
        },
      )
    where
      erased : erase_one id (id ∷ ids) ≡ ids
      erased = unfold erase_one in rw (==_refl id) refl

      present : contains id (id ∷ ids) ≡ true
      present = unfold contains in rw (==_refl id) refl

      answers :
          act patches workflow_id d (resumes id) m
          ≡ some (note (answered id (update_result a.0.0)) (record m { waiting = ids }))
      answers =
          act-resumes id m (ap₂ (λ (x : Pc Spec State) l. is_blocked_at x l) h w)
          ∙ resume-answers id a.0.0 ids m (ap (contains id) w ∙ present) a.0.1
              (ap (erase_one id) w ∙ erased)

  -- A deletion that waits for the handlers, all of which have a recorded outcome, comes to an end:
  -- every handler can return, and then the run closes.
  pub deletion_ends :
      (m : Machine W Spec State)
      → m.pc ≡ at_drain
      → AllRecorded m.waiting m
      → (n : Machine W Spec State) × (e : Outcome Spec State) × Reach patches workflow_id d m n
        × (n.pc ≡ closed e)
        × (n.waiting ≡ [])
  deletion_ends m h a =
      let (n, e) = drain_from m.waiting m h refl a in
      let (o, out, reached, closes, empty) = drained_closes n e.pc e.waiting in
      (o, out, Reach-trans e.reached reached, closes, empty)

  finish_finalize-completes :
      (w : W) (st : State) (m : Machine W Spec State)
      → let n = finish_finalize patches d (w, st, none) m in
        (n.pc ≡ closed completed) × (n.env.phase ≡ Phase.deleted) × (n.world ≡ w)
  unfolding finish_finalize upsert
  finish_finalize-completes w st m = (refl, ground arith, ground arith)

  -- The same where the finalizer succeeds: the run completes, and the world is as it left it.
  pub deletion_completes :
      (m : Machine W Spec State) (f : W → State → W × State × Check) (w : W) (st : State)
      → m.pc ≡ at_drain
      → AllRecorded m.waiting m
      → d.finalize ≡ some f
      → f m.world m.env.state ≡ (w, st, none)
      → (n : Machine W Spec State) × Reach patches workflow_id d m n
        × (n.pc ≡ closed completed)
        × (n.env.phase ≡ Phase.deleted)
        × (n.world ≡ w)
  deletion_completes m f w st h a found succeeds =
      let (n, e) = drain_from m.waiting m h refl a in
      let o = go at_finalize n in
      let two : Reach patches workflow_id d n
          (finish_finalize patches d (f n.world n.env.state) o) =
        next proceeds
          (next proceeds here (drains n e.pc e.waiting ∙ ap some (drain-finalizes n f found)))
          (finalizes n f found) in
      let same : f n.world n.env.state ≡ (w, st, none) =
        ap₂ (λ v env. f v env.state) e.world e.env ∙ succeeds in
      let (shut, gone, left) =
        subst
          (λ r.
            let k = finish_finalize patches d r o in
            (k.pc ≡ closed completed) × (k.env.phase ≡ Phase.deleted) × (k.world ≡ w))
          (sym same) (finish_finalize-completes w st o) in
      (
        finish_finalize patches d (f n.world n.env.state) o,
        Reach-trans e.reached two,
        shut,
        gone,
        left,
      )

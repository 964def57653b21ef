-- ===== src/Entdefine/Queue.antt =====
-- The command queue of a run: what arrives, what is taken and what waits.
use mathlib.Core.List.{append_assoc, append-nil}
use mathlib.Core.Path.{ap₂}
use temporal_entity.Base.{
  ◌≡◌, refl, ◌∙◌, ap, sym, if_keeps, Bool, Option, List, [], ◌∷◌, ◌++◌, map, Str, Dict, lookup,
  Option-cases, inl, inr, ◌⊎◌,
}
use temporal_entity.Entity.State.{Phase}
use temporal_entity.Entity.Command.{Codec, CommandName}
use temporal_entity.Wire.{Envelope, CommandEnvelope, UpdateArgs}
use temporal_entity.Entdefine.Attributes.{Attributes}
use temporal_entity.Entdefine.Definition.{Definition}
use temporal_entity.Entdefine.Loop.{
  Machine, Pc, Event, Reach, enqueued, executed, rejected, at_command, at_top, at_idle, at_continue,
  at_init, at_cancelled_init, begin_run, with_pending, accept_update, receive_delete,
}
use temporal_entity.Entdefine.Effects.{Effect}
use temporal_entity.Entdefine.Effects.Commands.{
  run_set_labels-Effect, run_unknown-Effect, finish_command-Effect,
}
use temporal_entity.Entdefine.Effects.Stages.{
  begin_delete-Effect, finish_drain-Effect, finish_finalize-Effect, finish_reconcile-Effect,
  settle_init-Effect,
}
use temporal_entity.Entdefine.Frame.{publish_laws}
use temporal_entity.Entdefine.Induction.{Kept}
use temporal_entity.Entdefine.Induction.Steps.{reach_keeps}

-- The commands that update handlers queued, and those that the main loop has dealt with.
abbrev pub arrivals : List Event → List CommandEnvelope
arrivals [] = []
arrivals (enqueued c ∷ h) = c ∷ arrivals h
arrivals (_ ∷ h) = arrivals h

abbrev pub departures : List Event → List CommandEnvelope
departures [] = []
departures (executed c ∷ h) = c ∷ departures h
departures (rejected c ∷ h) = c ∷ departures h
departures (_ ∷ h) = departures h

-- The command that is being executed.
abbrev pub in_flight : {Spec State : Type 0} → Pc Spec State → List CommandEnvelope
in_flight (at_command c) = c ∷ []
in_flight _ = []

pub arrivals-append : (h k : List Event) → arrivals (h ++ k) ≡ arrivals h ++ arrivals k
arrivals-append [] k = refl
arrivals-append (enqueued c ∷ h) k = ap (λ l. c ∷ l) (arrivals-append h k)
arrivals-append (_ ∷ h) k = arrivals-append h k

pub departures-append : (h k : List Event) → departures (h ++ k) ≡ departures h ++ departures k
departures-append [] k = refl
departures-append (executed c ∷ h) k = ap (λ l. c ∷ l) (departures-append h k)
departures-append (rejected c ∷ h) k = ap (λ l. c ∷ l) (departures-append h k)
departures-append (_ ∷ h) k = departures-append h k

pub arrivals-rejected : (cs : List CommandEnvelope) → arrivals (map rejected cs) ≡ []
arrivals-rejected [] = refl
arrivals-rejected (c ∷ cs) = arrivals-rejected cs

departures-rejected : (cs : List CommandEnvelope) → departures (map rejected cs) ≡ cs
departures-rejected [] = refl
departures-rejected (c ∷ cs) = ap (λ l. c ∷ l) (departures-rejected cs)

-- What was there at the start and what arrived is what has left, what is being executed and what
-- still waits, in this order.
abbrev pub Balance : List CommandEnvelope → List Event → List CommandEnvelope → Type 0
Balance start h left = start ++ arrivals h ≡ departures h ++ left

module _ (start : List CommandEnvelope) (h : List Event) where
  Balance-taken :
      (c : CommandEnvelope) (cs : List CommandEnvelope)
      → Balance start h (c ∷ cs)
      → Balance start (h ++ executed c ∷ []) cs
  Balance-taken c cs b = simp (arrivals-append, departures-append, append-nil, append_assoc) b

  Balance-queued :
      (c : CommandEnvelope) (cs : List CommandEnvelope)
      → Balance start h cs
      → Balance start (h ++ enqueued c ∷ []) (cs ++ c ∷ [])
  Balance-queued c cs b =
      simp (arrivals-append, departures-append, append-nil, ← append_assoc)
        (ap (λ l. l ++ c ∷ []) b)

  Balance-rejected :
      (cs : List CommandEnvelope) → Balance start h cs → Balance start (h ++ map rejected cs) []
  Balance-rejected cs b =
      simp (arrivals-append, departures-append, arrivals-rejected, departures-rejected, append-nil)
        b

module _ {W Spec State : Type 0} (start : List CommandEnvelope) where
  -- The balance of a machine.
  abbrev pub IsBalanced : Machine W Spec State → Type 0
  IsBalanced m = Balance start m.history (in_flight m.pc ++ m.env.pending)

  -- The balance, where the place and the queue are known.
  Balance-at :
      (m : Machine W Spec State) (place : Pc Spec State) (queue : List CommandEnvelope)
      → m.pc ≡ place
      → m.env.pending ≡ queue
      → IsBalanced m
      → Balance start m.history (in_flight place ++ queue)
  Balance-at m place queue p q b =
      b ∙ ap (λ l. departures m.history ++ l) (ap₂ (λ (x : Pc Spec State) y. in_flight x ++ y) p q)

  Balance-after :
      {m n : Machine W Spec State} {events : List Event} {place : Pc Spec State} {stage : Phase}
      {started : Bool} {queue : List CommandEnvelope}
      → Effect m n events place stage started queue
      → Balance start (m.history ++ events) (in_flight place ++ queue)
      → IsBalanced n
  Balance-after {m} {n} {events} {place} {queue = queue} e b =
      ap (λ h. start ++ arrivals h) e.history
      ∙ b
      ∙ sym (
          ap₂ (λ h l. departures h ++ l) e.history
            (ap₂ (λ (x : Pc Spec State) y. in_flight x ++ y) e.pc e.pending))

  -- A step that only moves, between places where no command is in flight.
  IsBalanced-moved :
      {m n : Machine W Spec State} {events : List Event} {place : Pc Spec State} {stage : Phase}
      {started : Bool}
      → Effect m n events place stage started m.env.pending
      → arrivals events ≡ []
      → departures events ≡ []
      → in_flight m.pc ≡ in_flight place
      → IsBalanced m
      → IsBalanced n
  IsBalanced-moved {m} {n} {events} {place} e a z f b =
      Balance-after e (simp (arrivals-append, departures-append, a, z, append-nil, ← f) b)

module _ {W Spec State : Type 0} (patches : Codec (Dict Str)) (workflow_id : Str)
    (d : Definition W Spec State) (start : List CommandEnvelope) where
  accept_update-IsBalanced :
      (name : CommandName) (args : UpdateArgs) (m : Machine W Spec State)
      → IsBalanced start m
      → IsBalanced start (accept_update name args m)
  unfolding accept_update
  accept_update-IsBalanced name args m b =
      elim (Option-cases (lookup args.request_id m.env.completed)) [
        | inr (r, found) ↦
            rw (found, accept_update) (simp (arrivals-append, departures-append, append-nil) b)
        | inl fresh ↦
            let c : CommandEnvelope = record {
              request_id = args.request_id;
              name = name;
              payload = args.payload;
            } in
            rw (fresh, accept_update)
              (Balance-queued start m.history c (in_flight m.pc ++ m.env.pending) b
                ∙ ap (λ l. departures (m.history ++ enqueued c ∷ []) ++ l)
                    (append_assoc (in_flight m.pc) m.env.pending (c ∷ [])))
      ]

  -- A command that the main loop ran without leaving the head of the loop.
  Balance-ran :
      (c : CommandEnvelope) (cs : List CommandEnvelope) (m : Machine W Spec State)
      → m.pc ≡ at_top
      → m.env.pending ≡ c ∷ cs
      → IsBalanced start m
      → Balance start (m.history ++ executed c ∷ []) (in_flight m.pc ++ cs)
  Balance-ran c cs m h q b =
      Balance-taken start m.history c cs (Balance-at start m at_top (c ∷ cs) h q b)
      ∙ ap (λ (x : Pc Spec State). departures (m.history ++ executed c ∷ []) ++ (in_flight x ++ cs))
          (sym h)

  creation_in_flight :
      (m : Machine W Spec State)
      → (m.pc ≡ at_init) ⊎ (m.pc ≡ at_cancelled_init)
      → in_flight m.pc ≡ []
  creation_in_flight m (inl h) = ap in_flight h
  creation_in_flight m (inr h) = ap in_flight h

  IsBalanced-Kept : Kept patches workflow_id d (IsBalanced start)
  IsBalanced-Kept = record {
    begins_delete = λ m h _ b. Balance-after start (begin_delete-Effect patches d m) (
        Balance-rejected start m.history m.env.pending
          (Balance-at start m at_top m.env.pending h refl b));
    labels = λ c cs m h _ q _ b.
        Balance-after start (run_set_labels-Effect patches d c (with_pending patches d cs m))
          (Balance-ran c cs m h q b);
    unknowns = λ c cs m h _ q _ _ b.
        Balance-after start (run_unknown-Effect patches d c (with_pending patches d cs m))
          (Balance-ran c cs m h q b);
    takes = λ c cs m h _ q _ b. Balance-at start m at_top (c ∷ cs) h q b;
    rolls = λ m h _ q _ b. Balance-at start m at_top m.env.pending h refl b;
    idles = λ m h _ q b. Balance-at start m at_top m.env.pending h refl b;
    commands = λ cmd c m h _ b. Balance-after start (finish_command-Effect patches d cmd c m) (
        Balance-taken start m.history c m.env.pending
          (Balance-at start m (at_command c) m.env.pending h refl b));
    drains = λ m h _ b. elim (finish_drain-Effect patches d m) [
      | inl e ↦ IsBalanced-moved start e refl refl (ap in_flight h) b
      | inr e ↦ IsBalanced-moved start e refl refl (ap in_flight h) b
    ];
    finalizes = λ r m h _ b. elim (finish_finalize-Effect patches d r m) [
      | inl e ↦ IsBalanced-moved start e refl refl (ap in_flight h) b
      | inr (f, e) ↦ IsBalanced-moved start e refl refl (ap in_flight h) b
    ];
    continues = λ m h _ b. Balance-at start m at_continue m.env.pending h refl b;
    wakes = λ m h b. Balance-at start m at_idle m.env.pending h refl b;
    expires = λ m h b. Balance-at start m at_idle m.env.pending h refl b;
    reconciles = λ m h b. elim (finish_reconcile-Effect patches d m) [
      | inl same ↦ rw same b
      | inr (f, e) ↦ IsBalanced-moved start e refl refl (ap in_flight h) b
    ];
    settles = λ r m h _ b.
        let f = creation_in_flight m h in
        elim (settle_init-Effect patches d r m) [
          | inl e ↦ IsBalanced-moved start e refl refl f b
          | inr (inl (marked, e)) ↦ IsBalanced-moved start e refl refl f b
          | inr (inr (g, unmarked, e)) ↦ IsBalanced-moved start e refl refl f b
        ];
    cancels = λ m h _ b. Balance-at start m at_init m.env.pending h refl b;
    accepts = λ name args m _ _ b. accept_update-IsBalanced name args m b;
    answers = λ id r m _ _ _ b. simp (arrivals-append, departures-append, append-nil) b;
    deletions = λ m _ b. unfold receive_delete in b;
    suggestions = λ m _ b. b;
  }

  begin_run-IsBalanced :
      (w : W) (env : Envelope Spec State) (published : Option Attributes)
      → env.pending ≡ start
      → IsBalanced start (begin_run patches d w env published)
  unfolding begin_run
  begin_run-IsBalanced w env published h =
      if_keeps (IsBalanced {W = W} {Spec = Spec} {State = State} start) env.initialized _ _
        (λ _. append-nil start ∙ sym h)
        (λ _. elim (Option-cases d.init) [
          | inl missing ↦ rw missing (simp publish_laws (append-nil start ∙ sym h))
          | inr (f, found) ↦ rw found (simp publish_laws (append-nil start ∙ sym h))
        ])

-- In every machine that a run reaches, the commands that the envelope brought and those that
-- arrived since are those that were executed or rejected, then the one being executed, then those
-- in the queue, in this order.
pub queue_in_order :
    {W Spec State : Type 0} (patches : Codec (Dict Str)) (workflow_id : Str)
    (d : Definition W Spec State) (w : W) (env : Envelope Spec State)
    (published : Option Attributes) {m : Machine W Spec State}
    → Reach patches workflow_id d (begin_run patches d w env published) m
    → env.pending ++ arrivals m.history ≡ departures m.history ++ (in_flight m.pc ++ m.env.pending)
queue_in_order patches workflow_id d w env published r =
    reach_keeps patches workflow_id d (IsBalanced env.pending)
      (IsBalanced-Kept patches workflow_id d env.pending)
      (begin_run-IsBalanced patches workflow_id d env.pending w env published refl) r

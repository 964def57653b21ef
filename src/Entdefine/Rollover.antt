-- ===== src/Entdefine/Rollover.antt =====
-- Continue-as-new: what it carries, and an update that arrives while the main loop waits for it.
use temporal_entity.Base.{
  ◌≡◌, refl, ◌∙◌, inl, inr, ◌==◌, ==_iff, ==_refl, true, false, none, some, List, [], ◌∷◌, ◌++◌,
  Str, arith, Dict, lookup, has, not_has, contains, contains-append, Option-cases, Bool-cases,
}
use temporal_entity.Entity.Id.{RequestId}
use temporal_entity.Entity.Command.{Codec, CommandName}
use temporal_entity.Wire.{UpdateArgs, OpResult}
use temporal_entity.Entdefine.Definition.{Definition}
use temporal_entity.Entdefine.Loop.{
  Machine, Reach, at_continue, accept_update, receive_delete, erase_one, receive_update,
  validate_update,
}
use temporal_entity.Entdefine.Induction.{Kept}
use temporal_entity.Entdefine.Induction.Steps.{reach_keeps}

-- A handler waits for the request, whose outcome is not recorded.
abbrev pub IsAwaited : List RequestId → Dict OpResult → RequestId → Type 0
IsAwaited waiting done id = (contains id waiting ≡ true) × (has id done ≡ false)

pub IsAwaited-snoc :
    (waiting : List RequestId) (done : Dict OpResult) (k id : RequestId)
    → IsAwaited waiting done id
    → IsAwaited (waiting ++ k ∷ []) done id
IsAwaited-snoc waiting done k id h = ground (arith, contains-append id waiting (k ∷ []))

contains-erase_one :
    (k id : RequestId) (waiting : List RequestId)
    → (k == id) ≡ false
    → contains id (erase_one k waiting) ≡ contains id waiting
unfolding erase_one contains
contains-erase_one k id [] h = refl
contains-erase_one k id (x ∷ waiting) h =
    ground (arith, contains-erase_one k id waiting, ==_iff x k, ==_iff x id, ==_iff k id)

-- A handler that returns takes none of these along.
pub IsAwaited-erase_one :
    (waiting : List RequestId) (done : Dict OpResult) (k : RequestId) (r : OpResult)
    (id : RequestId)
    → lookup k done ≡ some r
    → IsAwaited waiting done id
    → IsAwaited (erase_one k waiting) done id
IsAwaited-erase_one waiting done k r id found h = (contains-erase_one k id waiting ne ∙ h.0, h.1)
  where
    ne : (k == id) ≡ false
    ne = elim (Bool-cases (k == id)) [ inr e ↦ e | inl e ↦ ground (arith, h.1, found, ==_iff k id) ]

pub nobody_waits :
    (id : RequestId) (waiting : List RequestId) → waiting ≡ [] → contains id waiting ≡ true → ⊥
nobody_waits id waiting w h = nothing (rw w at h)
  where
    nothing : contains id [] ≡ true → ⊥
    nothing e = unfold contains in cc e

module _ {W Spec State : Type 0} (patches : Codec (Dict Str)) (workflow_id : Str)
    (d : Definition W Spec State) where
  -- The main loop waits to continue-as-new and the request is awaited.
  abbrev pub IsHanging : RequestId → Machine W Spec State → Type 0
  IsHanging id m = (m.pc ≡ at_continue) × IsAwaited m.waiting m.env.completed id

  accept_update-IsHanging :
      (id : RequestId) (name : CommandName) (args : UpdateArgs) (m : Machine W Spec State)
      → IsHanging id m
      → IsHanging id (accept_update name args m)
  unfolding accept_update
  accept_update-IsHanging id name args m h =
      elim (Option-cases (lookup args.request_id m.env.completed)) [
        | inr (r, found) ↦ rw (found, accept_update) h
        | inl fresh ↦
            rw (fresh, accept_update)
              (h.0, (IsAwaited-snoc m.waiting m.env.completed args.request_id id h.1))
      ]

  IsHanging-Kept : (id : RequestId) → Kept patches workflow_id d (IsHanging id)
  IsHanging-Kept id = record {
    begins_delete = λ m h _ p. cc (h, p.0);
    labels = λ c cs m h _ _ _ p. cc (h, p.0);
    unknowns = λ c cs m h _ _ _ _ p. cc (h, p.0);
    takes = λ c cs m h _ _ _ p. cc (h, p.0);
    rolls = λ m h _ _ _ p. cc (h, p.0);
    idles = λ m h _ _ p. cc (h, p.0);
    commands = λ cmd c m h _ p. cc (h, p.0);
    drains = λ m h _ p. cc (h, p.0);
    finalizes = λ r m h _ p. cc (h, p.0);
    continues = λ m h w p. absurd (nobody_waits id m.waiting w p.1.0);
    wakes = λ m h p. cc (h, p.0);
    expires = λ m h p. cc (h, p.0);
    reconciles = λ m h p. cc (h, p.0);
    settles = λ r m h _ p. elim h [ inl e ↦ cc (e, p.0) | inr e ↦ cc (e, p.0) ];
    cancels = λ m h _ p. cc (h, p.0);
    accepts = λ name args m _ _ p. accept_update-IsHanging id name args m p;
    answers =
        λ k r m _ _ found p. (p.0, IsAwaited-erase_one m.waiting m.env.completed k r id found p.1);
    deletions = λ m _ p. unfold receive_delete in p;
    suggestions = λ m _ p. p;
  }

  accepted-IsHanging :
      (name : CommandName) (args : UpdateArgs) (m : Machine W Spec State)
      → m.pc ≡ at_continue
      → lookup args.request_id m.env.completed ≡ none
      → IsHanging args.request_id (accept_update name args m)
  unfolding accept_update
  accepted-IsHanging name args m h fresh =
      rw (fresh, accept_update)
        (
          h,
          (
            unfold contains in
                ground (
                  arith,
                  contains-append args.request_id m.waiting (args.request_id ∷ []),
                  ==_refl args.request_id,
                ),
            not_has args.request_id m.env.completed fresh,
          ),
        )

  -- An update that passes its validator, with a request id whose outcome is not recorded, while the
  -- main loop waits for the handlers in order to continue as new, hangs: whatever happens then, the
  -- main loop still waits, the handler has not returned and the command has no outcome.
  pub update_during_rollover_hangs :
      (name : CommandName) (args : UpdateArgs) (m : Machine W Spec State) {o : Machine W Spec State}
      → m.pc ≡ at_continue
      → validate_update patches workflow_id d name args m ≡ some none
      → lookup args.request_id m.env.completed ≡ none
      → Reach patches workflow_id d (receive_update patches workflow_id d name args m) o
      → (o.pc ≡ at_continue)
        × (contains args.request_id o.waiting ≡ true)
        × (has args.request_id o.env.completed ≡ false)
  unfolding receive_update
  update_during_rollover_hangs name args m {o} h valid fresh r =
      let p =
        reach_keeps patches workflow_id d (IsHanging args.request_id)
          (IsHanging-Kept args.request_id)
          (rw (valid, receive_update) (accepted-IsHanging name args m h fresh)) r in
      (p.0, p.1.0, p.1.1)

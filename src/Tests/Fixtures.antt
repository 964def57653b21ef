-- ===== src/Tests/Fixtures.antt =====
-- A counter kind with one command, and runs of it that are given by their actions.
use temporal_entity.Base.{
  ℕ, ◌+◌, true, false, Option, none, some, List, [], ◌∷◌, ◌++◌, Str, codes, Dict, length, is_nil,
  Result, ok, err, new_error, if◌then◌else◌, ◌≡◌, refl,
}
use temporal_entity.Entity.State.{Phase}
use temporal_entity.Entity.Command.{Codec, CommandName}
use temporal_entity.Wire.{Envelope, UpdateArgs}
use temporal_entity.Entdefine.Context.{Mutation}
use temporal_entity.Entdefine.Definition.{Definition, CommandImpl}
use temporal_entity.Entdefine.Loop.{
  Machine, Action, Reach, next, act, proceeds, updates, resumes, deletes, inits,
}

module _ {W Spec State : Type 0} (patches : Codec (Dict Str)) (workflow_id : Str)
    (d : Definition W Spec State) where
  -- The machine after an action, or as it was if the action cannot happen.
  unfoldable pub attempt : Action → Machine W Spec State → Machine W Spec State
  unfolding act
  attempt a m = elim (act patches workflow_id d a m) [ none ↦ m | some n ↦ n ]

  unfoldable pub after : List Action → Machine W Spec State → Machine W Spec State
  unfolding attempt
  after [] m = m
  after (a ∷ rest) m = after rest (attempt a m)

  goes :
      (a : Action) (m n : Machine W Spec State) (o : Option (Machine W Spec State))
      → act patches workflow_id d a n ≡ o
      → Reach patches workflow_id d m n
      → Reach patches workflow_id d m (elim o [ none ↦ n | some k ↦ k ])
  goes a m n none h r = r
  goes a m n (some k) h r = next a r h

  pub reaches :
      (script : List Action) (m n : Machine W Spec State)
      → Reach patches workflow_id d m n
      → Reach patches workflow_id d m (after script n)
  unfolding after
  reaches [] m n r = r
  reaches (a ∷ rest) m n r =
      reaches rest m (attempt a n)
        (unfold attempt in goes a m n (act patches workflow_id d a n) refl r)

-- One byte is a key, the rest its value.
abbrev pub read_patch : Str → Result (Dict Str)
read_patch [] = ok []
read_patch (c ∷ v) = ok ((c ∷ [], v) ∷ [])

abbrev pub write_patch : Dict Str → Result Str
write_patch [] = ok []
write_patch ((c ∷ [], v) ∷ []) = ok (c ∷ v)
write_patch m = err (new_error (codes "not a patch of one byte"))

abbrev pub patches : Codec (Dict Str)
patches = record { marshal = write_patch; unmarshal = read_patch }

abbrev pub add : CommandName
add = codes "add"

-- `add` adds the length of its payload to the state and takes no empty payload.
abbrev pub add_impl : CommandImpl ℕ ℕ ℕ
add_impl = record {
  info = record { name = add; req_type = codes "Add"; res_type = codes "Added" };
  exec = λ w v p. (
    w + 1,
    Mutation.put_state (v.state + length p) ∷ Mutation.put_label (codes "last") p ∷ [],
    ok p,
  );
  validate = some (λ s p. if is_nil p then some (new_error (codes "nothing to add")) else none);
}

-- It continues as new after one command.
abbrev pub counter : Definition ℕ ℕ ℕ
counter = record {
  kind = codes "counter";
  init = some (λ w cancelled spec. (w + 1, spec, none));
  finalize = some (λ w st. (w + 1, st, none));
  reconcile = some (λ w v. (w + 1, [], none));
  reconcile_every = 30;
  commands = (add, add_impl) ∷ [];
  queries = [];
  use_search_attrs = true;
  force_can_every = 1;
  errs = [];
}

abbrev pub blank : Envelope ℕ ℕ
blank = record {
  initialized = false;
  phase = Phase.unset;
  spec = 5;
  state = 0;
  labels = [];
  marked_for_deletion = false;
  pending = [];
  completed = [];
  completed_order = [];
}

abbrev pub add_args : Str → Str → UpdateArgs
add_args id payload = record { request_id = id; payload = payload }

-- A command is added, run and answered, and the entity continues as new.
abbrev pub one_command : List Action
one_command =
    inits
    ∷ proceeds
    ∷ updates add (add_args (codes "r1") (codes "xy"))
    ∷ proceeds
    ∷ proceeds
    ∷ proceeds
    ∷ proceeds
    ∷ []

abbrev pub rollover : List Action
rollover = one_command ++ resumes (codes "r1") ∷ proceeds ∷ []

-- A command comes in, then the deletion.
abbrev pub deletion : List Action
deletion =
    inits
    ∷ proceeds
    ∷ updates add (add_args (codes "r1") (codes "xy"))
    ∷ deletes
    ∷ proceeds
    ∷ proceeds
    ∷ []

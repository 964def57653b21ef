-- ===== src/Entdefine/Definition/Registry.antt =====
-- `New`, `Handle`, `Validate`, `HandleQuery` and `Register`: what is registered, what is reported, and
-- how the validators of a command are chained.
use temporal_entity.Base.{
  suc, ◌≡◌, ◌≢◌, refl, Bool, true, false, none, some, [], ◌∷◌, arith, ◌==◌, ==_iff, ==_refl, lookup,
  insert, has, lookup-insert, ok, err, Check, and_then, length, length-append, Bool-cases, inl, inr,
  Option-cases, Result-cases, and_then_assoc, if◌then◌else◌,
}
use temporal_entity.Entity.State.{Snapshot}
use temporal_entity.Entity.Command.{CommandName, Payload, CommandType}
use temporal_entity.Entdefine.Context.{Handler}
use temporal_entity.Entdefine.Typed.{base_validate, decode_error, validate_self, validate_with}
use temporal_entity.Entdefine.Definition.{
  Definition, CommandImpl, CommandRegistration, is_reserved_command, handle, validate, chained,
  command_impl, refused, registration_error,
}

module _ {W Spec State : Type 0} where
  -- What a command's validator says; a command without one takes every request.
  abbrev pub verdict : CommandImpl W Spec State → Snapshot Spec State → Payload → Check
  verdict impl s payload = elim impl.validate [ none ↦ none | some v ↦ v s payload ]

  -- Every command is stored under the name that it has, is not a name of the chassis, and has a
  -- validator.
  pub record IsRegistry (d : Definition W Spec State) : Type 0 where
    pub named :
        (k : CommandName) (impl : CommandImpl W Spec State)
        → lookup k d.commands ≡ some impl
        → (impl.info.name ≡ k) × (is_reserved_command k ≡ false) × (impl.validate ≢ none)

module _ {W Spec State Req Res : Type 0} (type : CommandType Spec State Req Res) where
  -- Does `Handle` take the command?
  abbrev pub accepts : Definition W Spec State → Bool
  accepts d =
      if is_reserved_command type.name
      then false
      else if has type.name d.commands
      then false
      else true

  -- `Handle` keeps the registry in order: every command is stored under its own name, which is not
  -- one of the chassis, and has a validator.
  pub handle-IsRegistry :
      (d : Definition W Spec State) (fn : Handler W Spec State Req Res)
      → IsRegistry d
      → IsRegistry (handle type d fn).0
  unfolding handle command_impl refused
  handle-IsRegistry d fn h = record {
    named = λ k impl. ground (
      arith,
      h.named k impl,
      lookup-insert type.name k (command_impl type fn) d.commands,
      ==_iff type.name k,
    );
  }

  -- `Validate` keeps the registry in order: every command is stored under its own name, which is not
  -- one of the chassis, and has a validator.
  pub validate-IsRegistry :
      (d : Definition W Spec State) (r : CommandRegistration)
      (check : Snapshot Spec State → Req → Check)
      → IsRegistry d
      → IsRegistry (validate type r check d)
  unfolding validate
  validate-IsRegistry d r check h = elim (Bool-cases r.dead) [
    | inl dead ↦ rw dead h
    | inr alive ↦ elim (Option-cases (lookup r.impl d.commands)) [
      | inl missing ↦ rw alive (rw (missing, validate) h)
      | inr (old, found) ↦ record {
        named = λ k impl. rw alive (
            ground (
              arith,
              found,
              h.named k impl,
              h.named r.impl old found,
              ==_iff r.impl k,
              lookup-insert r.impl k (record old { validate = some (chained type old check) })
                  d.commands,
            ));
      }
    ]
  ]

  -- `Handle` on a name that is new and not reserved stores the command there, leaves the others and
  -- reports nothing.
  pub handle_accepted :
      (d : Definition W Spec State) (fn : Handler W Spec State Req Res) (k : CommandName)
      → accepts d ≡ true
      → let (d', r) = handle type d fn in
        (lookup k d'.commands
          ≡ (if type.name == k then some (command_impl type fn) else lookup k d.commands))
        × (d'.errs ≡ d.errs)
        × (r.dead ≡ false)
  unfolding handle
  handle_accepted d fn k h =
      ground (arith, lookup-insert type.name k (command_impl type fn) d.commands)

  -- `Handle` on any other name stores nothing, reports one error, and its registration is dead: a
  -- validator that is attached to it changes nothing.
  pub handle_refused :
      (d : Definition W Spec State) (fn : Handler W Spec State Req Res)
      (check : Snapshot Spec State → Req → Check)
      → accepts d ≡ false
      → let (d', r) = handle type d fn in
        (d'.commands ≡ d.commands)
        × (length d'.errs ≡ suc (length d.errs))
        × (validate type r check d' ≡ d')
  unfolding handle refused validate
  handle_refused d fn check h =
      let e = registration_error d "reserved or empty command name" type.name type.req_type in
      let f = registration_error d "duplicate command" type.name type.req_type in
      elim (Bool-cases (is_reserved_command type.name)) [
        | inl reserved ↦
            rw reserved (refl, (omega (arith, length-append {0} d.errs (e ∷ []))), refl)
        | inr open_name ↦ elim (Bool-cases (has type.name d.commands)) [
          | inl dup ↦
              rw (open_name, dup) (refl, (omega (arith, length-append {0} d.errs (f ∷ []))), refl)
          | inr fresh ↦ ground (arith, open_name, fresh)
        ]
      ]

  handle_taken :
      (d : Definition W Spec State) (fn : Handler W Spec State Req Res)
      → accepts d ≡ true
      → handle type d fn ≡ (
        record d { commands = insert type.name (command_impl type fn) d.commands },
        record { impl = type.name; dead = false },
      )
  unfolding handle
  handle_taken d fn h = elim (Bool-cases (is_reserved_command type.name)) [
    | inl reserved ↦ ground (arith, reserved)
    | inr open_name ↦ rw open_name (elim (Bool-cases (has type.name d.commands)) [
      | inl dup ↦ ground (arith, open_name, dup)
      | inr fresh ↦ rw fresh
    ])
  ]

  chained-base_validate :
      (fn : Handler W Spec State Req Res) (check : Snapshot Spec State → Req → Check)
      (s : Snapshot Spec State) (payload : Payload)
      → chained type (command_impl type fn) check s payload
        ≡ elim (type.req_codec.unmarshal payload) [
          | err e ↦ some (decode_error type e)
          | ok req ↦
              and_then (validate_self type req) (and_then (validate_with type s req) (check s req))
        ]
  unfolding chained command_impl base_validate
  chained-base_validate fn check s payload =
      elim (Result-cases (type.req_codec.unmarshal payload)) [
        | inl (req, e) ↦
            rw (e, base_validate)
              (and_then_assoc (validate_self type req) (validate_with type s req) (check s req))
        | inr (f, e) ↦ rw (e, base_validate)
      ]

  lookup-validate :
      (d : Definition W Spec State) (r : CommandRegistration)
      (check : Snapshot Spec State → Req → Check) (impl : CommandImpl W Spec State)
      → r.dead ≡ false
      → lookup r.impl d.commands ≡ some impl
      → lookup r.impl (validate type r check d).commands
        ≡ some (record impl { validate = some (chained type impl check) })
  unfolding validate
  lookup-validate d r check impl alive found =
      let impl' : CommandImpl W Spec State = record impl {
        validate = some (chained type impl check);
      } in
      rw alive (rw found (rw (lookup-insert r.impl r.impl impl' d.commands, ==_refl r.impl)))

  -- The validators of a command that `Handle` took and `Validate` extended run in the order decode,
  -- `Validate`, `ValidateWith`, kind-level, and the first error is returned.
  pub validators_in_order :
      (d : Definition W Spec State) (fn : Handler W Spec State Req Res)
      (check : Snapshot Spec State → Req → Check) (s : Snapshot Spec State) (payload : Payload)
      → accepts d ≡ true
      → let (d', r) = handle type d fn in
        (impl : CommandImpl W Spec State) × (lookup type.name (validate type r check d').commands
          ≡ some impl)
        × (verdict impl s payload ≡ elim (type.req_codec.unmarshal payload) [
          | err e ↦ some (decode_error type e)
          | ok req ↦
              and_then (validate_self type req) (and_then (validate_with type s req) (check s req))
        ])
  validators_in_order d fn check s payload h =
      let impl : CommandImpl W Spec State = command_impl type fn in
      (
        record impl { validate = some (chained type impl check) },
        rw (handle_taken d fn h) (
            lookup-validate (record d { commands = insert type.name impl d.commands })
              (record { impl = type.name; dead = false }) check impl refl
              (rw (lookup-insert type.name type.name impl d.commands, ==_refl type.name))),
        chained-base_validate fn check s payload,
      )

-- ===== src/Entdefine/Loop/Setup/Registered.antt =====
-- pkg/entdefine/loop.go: the handlers of a run that begins.
use temporal_entity.Base.{
  ◌≡◌, refl, Option, none, some, List, [], ◌∷◌, ◌++◌, Str, codes, quote, keys, All, Dict, ok, Check,
  and_then, Option-cases, inl, inr,
}
use temporal_entity.Entity.State.{describe_query_name, set_labels_command_name}
use temporal_entity.Entity.Command.{Codec}
use temporal_entity.Wire.{Envelope}
use temporal_entity.Entdefine.Attributes.{Attributes}
use temporal_entity.Entdefine.Definition.{Definition}
use temporal_entity.Entdefine.Loop.Run.{Machine}
use temporal_entity.Entdefine.Loop.Main.{begin_run}
use temporal_entity.Entdefine.Loop.Setup.{
  wrap_check, register_each, register_queries, register_updates, enter,
}

and_then-none : (a b : Check) → and_then a b ≡ none → (a ≡ none) × (b ≡ none)
and_then-none none b h = (refl, h)
and_then-none (some e) b h = cc h

wrap_check-none : (prefix : Str) (c : Check) → wrap_check prefix c ≡ none → c ≡ none
wrap_check-none prefix none h = refl
wrap_check-none prefix (some e) h = cc h

register_each-none :
    (prefix : Str) (register : Str → Check) (names : List Str)
    → register_each prefix register names ≡ none
    → All (λ name. register name ≡ none) names
unfolding register_each
register_each-none prefix register [] h = tt
register_each-none prefix register (name ∷ names) h =
    let (first, rest) =
      and_then-none (wrap_check (prefix ++ quote name) (register name))
        (register_each prefix register names) h in
    (
      wrap_check-none (prefix ++ quote name) (register name) first,
      register_each-none prefix register names rest,
    )

-- One registration, and then the rest.
registrations-none :
    (first prefix : Str) (register : Str → Check) (name : Str) (names : List Str)
    → and_then (wrap_check first (register name)) (register_each prefix register names) ≡ none
    → (register name ≡ none) × All (λ n. register n ≡ none) names
registrations-none first prefix register name names h =
    let (one, rest) =
      and_then-none (wrap_check first (register name)) (register_each prefix register names) h in
    (wrap_check-none first (register name) one, register_each-none prefix register names rest)

module _ {W Spec State : Type 0} (query update : Str → Check) (patches : Codec (Dict Str))
    (d : Definition W Spec State) where
  -- Temporal took a handler for describe, for each query of the kind, for set-labels, and for each of
  -- its commands.
  pub record HasHandlers : Type 0 where
    pub describe : query describe_query_name ≡ none
    pub queries : All (λ name. query name ≡ none) (keys d.queries)
    pub set_labels : update set_labels_command_name ≡ none
    pub commands : All (λ name. update name ≡ none) (keys d.commands)

  handlers :
      and_then (register_queries query update patches d) (register_updates query update patches d)
        ≡ none
      → HasHandlers
  unfolding register_queries register_updates
  handlers h =
      let (q, u) =
        and_then-none (register_queries query update patches d)
          (register_updates query update patches d) h in
      let (describe, queries) =
        registrations-none (codes "register describe query") (codes "register query ") query
          describe_query_name (keys d.queries) q in
      let (set_labels, commands) =
        registrations-none (codes "register set-labels update") (codes "register update ") update
          set_labels_command_name (keys d.commands) u in
      record {
        describe = describe;
        queries = queries;
        set_labels = set_labels;
        commands = commands;
      }

  -- A run begins only with all its handlers: if `workflowFn` comes to its first blocking point, then
  -- Temporal took the handler of describe, of every query of the kind, of set-labels and of every
  -- command, and the machine is the one that begins on the envelope.
  pub enter-HasHandlers :
      (w : W) (env : Envelope Spec State) (published : Option Attributes) (m : Machine W Spec State)
      → enter query update patches d w (some env) published ≡ ok m
      → HasHandlers × (m ≡ begin_run patches d w env published)
  unfolding enter
  enter-HasHandlers w env published m h =
      elim (Option-cases (
        and_then (register_queries query update patches d)
          (register_updates query update patches d))) [
            | inl taken ↦ (handlers taken, cc (rw (taken, enter) at h))
            | inr (e, refused) ↦ cc (rw (refused, enter) at h)
          ]

-- ===== src/Entdefine/Serial/Entry.antt =====
-- The message handlers and the entry of pkg/entdefine/loop.go, on the sequential entity.
use temporal_entity.Base.{
  ◌≡◌, refl, ◌∙◌, ap, sym, inl, inr, if_keeps, option_keeps, true, false, Option, some, [], ◌∷◌,
  ◌++◌, Str, Dict, lookup, Option-cases,
}
use temporal_entity.Entity.Id.{RequestId}
use temporal_entity.Entity.State.{Phase}
use temporal_entity.Entity.Command.{Codec, CommandName}
use temporal_entity.Wire.{Envelope, CommandEnvelope, UpdateArgs, OpResult}
use temporal_entity.Wire.Cache.{HasCache}
use temporal_entity.Entdefine.Attributes.{Attributes}
use temporal_entity.Entdefine.Definition.{Definition}
use temporal_entity.Entdefine.Loop.{
  Machine, enqueued, answered, at_top, go, upsert, with_phase, begin_run, accept_update,
  update_result, erase_one, note,
}
use temporal_entity.Entdefine.Frame.{publish_laws}
use temporal_entity.Entdefine.Serial.{of_parts, entity_of}
use temporal_entity.Entdefine.Serial.Simulation.{entity_of-upsert}
use temporal_entity.Entdefine.Serial.Invariant.{
  IsSerial, is_past, IsSerial-message, IsDispatched-at, IsDispatched,
}
use temporal_entity.Entdefine.Serial.Answers.{lookup-remembered, replay-quiet}

module _ {W Spec State : Type 0} (patches : Codec (Dict Str)) (workflow_id : Str)
    (d : Definition W Spec State) (w0 : W) (env0 : Envelope Spec State) where
  abbrev pub SoundRest : Machine W Spec State → Type 0
  SoundRest m =
      IsDispatched patches workflow_id d w0 env0 m × IsSerial patches workflow_id d w0 env0 m

  pub accepts-Serial :
      (name : CommandName) (args : UpdateArgs) (m : Machine W Spec State)
      → HasCache m.env
      → SoundRest m
      → SoundRest (accept_update name args m)
  unfolding accept_update
  accepts-Serial name args m cache (p, s) =
      elim (Option-cases (lookup args.request_id m.env.completed)) [
        | inr (r, found) ↦
            rw (found, accept_update)
              (
                p,
                IsSerial-message patches workflow_id d w0 env0 m
                    (note (answered args.request_id (update_result r)) m)
                    (answered args.request_id (update_result r) ∷ []) refl refl refl tt
                    ((r, lookup-remembered args.request_id m.env r cache found, refl), tt) s,
              )
        | inl fresh ↦
            let c : CommandEnvelope = record {
              request_id = args.request_id;
              name = name;
              payload = args.payload;
            } in
            rw (fresh, accept_update)
              (
                p,
                IsSerial-message patches workflow_id d w0 env0 m
                    (note (enqueued c) (record m {
                      env = record m.env { pending = m.env.pending ++ c ∷ [] };
                      waiting = m.waiting ++ args.request_id ∷ [];
                    }))
                    (enqueued c ∷ []) refl refl refl tt tt s,
              )
      ]

  pub answers-Serial :
      (id : RequestId) (r : OpResult) (m : Machine W Spec State)
      → HasCache m.env
      → lookup id m.env.completed ≡ some r
      → SoundRest m
      → SoundRest
          (note (answered id (update_result r)) (record m { waiting = erase_one id m.waiting }))
  answers-Serial id r m cache found (p, s) = (
    p,
    IsSerial-message patches workflow_id d w0 env0 m
        (note (answered id (update_result r)) (record m { waiting = erase_one id m.waiting }))
        (answered id (update_result r) ∷ []) refl refl refl tt
        ((r, lookup-remembered id m.env r cache found, refl), tt) s,
  )

  fresh-IsSerial :
      (n : Machine W Spec State)
      → n.pc ≡ at_top
      → n.history ≡ []
      → entity_of n ≡ of_parts w0 env0
      → SoundRest n
  fresh-IsSerial n p h e = (
    IsDispatched-at patches workflow_id d w0 env0 n at_top p refl,
    inr (
      ap is_past p,
      (
        of_parts w0 env0,
        inl refl,
        rw h (e ∙ sym (replay-quiet patches d [] (of_parts w0 env0) tt)),
        rw h tt,
      ),
    ),
  )

  pub begin_run-IsSerial :
      (published : Option Attributes) → SoundRest (begin_run patches d w0 env0 published)
  unfolding begin_run
  begin_run-IsSerial published =
      let m : Machine W Spec State = record {
        world = w0;
        env = env0;
        labels_dirty = false;
        processed = 0;
        pc = at_top;
        waiting = [];
        suggested = false;
        published = published;
        history = [];
      } in
      let m' : Machine W Spec State = upsert d (with_phase Phase.creating m) in
      let begun : Machine W Spec State = record m' {
        env = record m'.env { initialized = true; phase = Phase.ready };
      } in
      let came : entity_of m' ≡ of_parts w0 env0 =
        entity_of-upsert d (with_phase Phase.creating m) in
      if_keeps SoundRest env0.initialized _ _ (λ _. fresh-IsSerial m refl refl refl)
        (λ _.
          option_keeps SoundRest d.init _ _
            (λ missing.
              fresh-IsSerial (go at_top (upsert d begun)) refl (simp publish_laws)
                (entity_of-upsert d begun ∙ came))
            (λ f found.
              ((λ c e. cc e), inl (inl refl, (came, simp publish_laws tt, simp publish_laws tt)))))

-- ===== src/Entdefine/Context.antt =====
-- pkg/entdefine/definition.go, `Ctx`: what the handlers of a kind get. A handler reads the entity
-- through `View` and changes it by a list of `Mutation`s, the calls that `Ctx` offers; `W` is the
-- world outside, on which its activities act.
use temporal_entity.Base.{Bool, true, List, [], ◌∷◌, Str, Dict, put_all, Result, if◌then◌else◌}
use temporal_entity.Entity.State.{Phase}
use temporal_entity.Wire.{Envelope, merge_labels}

pub record Ctx (Spec State : Type 0) : Type 0 where
  pub env : Envelope Spec State
  pub labels_dirty : Bool

pub record View (Spec State : Type 0) : Type 0 where
  pub spec : Spec
  pub state : State
  pub phase : Phase
  pub labels : Dict Str

pub data Mutation (Spec State : Type 0) : Type 0 where
  put_spec : Spec → Mutation Spec State
  put_state : State → Mutation Spec State
  put_label : Str → Str → Mutation Spec State

module _ {Spec State : Type 0} where
  -- `Spec`, `State`, `Phase` and `Labels`, which copies the labels
  unfoldable pub view : Ctx Spec State → View Spec State
  view c = record {
    spec = c.env.spec;
    state = c.env.state;
    phase = c.env.phase;
    labels = put_all [] c.env.labels;
  }

  unfoldable pub set_spec : Spec → Ctx Spec State → Ctx Spec State
  set_spec s c = record c { env = record c.env { spec = s } }

  -- a write through the pointer that `State` returns
  unfoldable pub set_state : State → Ctx Spec State → Ctx Spec State
  set_state s c = record c { env = record c.env { state = s } }

  unfoldable pub set_label : Str → Str → Ctx Spec State → Ctx Spec State
  set_label key value c =
      let (env, changed) = merge_labels ((key, value) ∷ []) c.env in
      if changed then record { env = env; labels_dirty = true } else record c { env = env }

  unfoldable pub mutate : Mutation Spec State → Ctx Spec State → Ctx Spec State
  unfolding set_spec set_state set_label
  mutate (put_spec s) c = set_spec s c
  mutate (put_state s) c = set_state s c
  mutate (put_label k v) c = set_label k v c

  unfoldable pub mutate_all : List (Mutation Spec State) → Ctx Spec State → Ctx Spec State
  unfolding mutate
  mutate_all [] c = c
  mutate_all (u ∷ us) c = mutate_all us (mutate u c)

-- A handler on the main loop: the world after it, the calls that it made on `Ctx`, its result.
abbrev pub Handler : Type 0 → Type 0 → Type 0 → Type 0 → Type 0 → Type 0
Handler W Spec State Req Res =
    W → View Spec State → Req → W × List (Mutation Spec State) × Result Res

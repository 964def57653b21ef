-- ===== src/Entdefine/Loop/Run.antt =====
-- The state of one run of `workflowFn`, between two points at which its coroutines can switch.
use temporal_entity.Base.{
  ℕ, Bool, false, ◌&&◌, ◌||◌, Option, some, List, [], ◌∷◌, ◌++◌, leb, ltb, Error, Result, Check,
  if◌then◌else◌,
}
use temporal_entity.Entity.Id.{RequestId}
use temporal_entity.Entity.State.{Phase}
use temporal_entity.Entity.Command.{Payload}
use temporal_entity.Wire.{Envelope, CommandEnvelope}
use temporal_entity.Entdefine.Context.{Ctx}
use temporal_entity.Entdefine.Definition.{Definition}
use temporal_entity.Entdefine.Attributes.{Attributes, label_values}

-- How the workflow function returned.
pub data Outcome (Spec State : Type 0) : Type 0 where
  completed : Outcome Spec State
  failed : Error → Outcome Spec State
  continued : Envelope Spec State → Outcome Spec State

-- Where the main coroutine stands: at the head of the loop, or blocked.
pub data Pc (Spec State : Type 0) : Type 0 where
  -- `Await(initDone || env.MarkedForDeletion)` and, after `cancelInit`, `Await(initDone)`
  at_init at_cancelled_init : Pc Spec State
  -- `for {`
  at_top : Pc Spec State
  -- inside `cmd.exec`
  at_command : CommandEnvelope → Pc Spec State
  -- `Await(AllHandlersFinished)` of the deletion path, and inside `d.finalize`
  at_drain at_finalize : Pc Spec State
  -- `Await(AllHandlersFinished)` before continue-as-new
  at_continue : Pc Spec State
  -- the idle wait, and inside `d.reconcile`
  at_idle at_reconcile : Pc Spec State
  closed : Outcome Spec State → Pc Spec State

-- What can be observed of a run, in order.
pub data Event : Type 0 where
  -- an update handler put its command into the queue
  enqueued : CommandEnvelope → Event
  -- the main loop took a command off the queue and recorded its outcome, or failed it because of
  -- the deletion
  executed rejected : CommandEnvelope → Event
  -- an update handler returned
  answered : RequestId → Result Payload → Event
  reconciled finalized : Check → Event

pub record Machine (W Spec State : Type 0) : Type 0 where
  pub world : W
  pub env : Envelope Spec State
  pub labels_dirty : Bool
  pub processed : ℕ
  pub pc : Pc Spec State
  -- the request ids of the update handlers that have not returned
  pub waiting : List RequestId
  -- `GetContinueAsNewSuggested`
  pub suggested : Bool
  -- the search attributes that the server holds
  pub published : Option Attributes
  pub history : List Event

module _ {W Spec State : Type 0} where
  abbrev pub with_phase : Phase → Machine W Spec State → Machine W Spec State
  with_phase p m = record m { env = record m.env { phase = p } }

  abbrev pub go : Pc Spec State → Machine W Spec State → Machine W Spec State
  go pc m = record m { pc = pc }

  abbrev pub note : Event → Machine W Spec State → Machine W Spec State
  note e m = record m { history = m.history ++ e ∷ [] }

  abbrev pub ctx : Machine W Spec State → Ctx Spec State
  ctx m = record { env = m.env; labels_dirty = m.labels_dirty }

  abbrev pub with_ctx : Ctx Spec State → Machine W Spec State → Machine W Spec State
  with_ctx c m = record m { env = c.env; labels_dirty = c.labels_dirty }

  -- `upsertSearchAttrs`; a failed upsert is only logged
  unfoldable pub upsert : Definition W Spec State → Machine W Spec State → Machine W Spec State
  upsert d m =
      if d.use_search_attrs
      then record m {
        published =
            some
              (record { kind = d.kind; phase = m.env.phase; labels = label_values m.env.labels });
      }
      else m

  -- `mirrorLabels`
  unfoldable pub mirror_labels :
      Definition W Spec State → Machine W Spec State → Machine W Spec State
  unfolding upsert
  mirror_labels d m = if m.labels_dirty then upsert d (record m { labels_dirty = false }) else m

  -- `canWanted`
  unfoldable pub can_wanted : Definition W Spec State → Machine W Spec State → Bool
  can_wanted d m = m.suggested || (ltb 0 d.force_can_every && leb d.force_can_every m.processed)

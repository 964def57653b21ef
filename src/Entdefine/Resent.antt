-- ===== src/Entdefine/Resent.antt =====
-- pkg/entdefine/loop.go: an update that is sent again after its command was executed.
use temporal_entity.Base.{Str, Dict, Result}
use temporal_entity.Entity.Command.{Payload, Codec}
use temporal_entity.Wire.{CommandEnvelope}
use temporal_entity.Entdefine.Context.{view}
use temporal_entity.Entdefine.Definition.{Definition, CommandImpl}
use temporal_entity.Entdefine.Loop.{Machine, ctx, finish_command}

module _ {W Spec State : Type 0} (patches : Codec (Dict Str)) (workflow_id : Str)
    (d : Definition W Spec State) (cmd : CommandImpl W Spec State) (c : CommandEnvelope)
    (m : Machine W Spec State) where
  -- What the handler of the command returns.
  abbrev pub result : Result Payload
  result = let (w, us, r) = cmd.exec m.world (view (ctx m)) c.payload in r

  abbrev pub executed_once : Machine W Spec State
  executed_once = finish_command patches d cmd c m

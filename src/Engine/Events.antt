-- ===== src/Engine/Events.antt =====
-- The life of one engine: the calls that its host makes, in any order, and what they leave.
use dstate.Base.{Option, none, some, List, [], ◌∷◌}
use dstate.Types.Config.{SyncUrgency}
use dstate.Types.Envelope.{NodeId, Clock}
use dstate.Types.Message.{Bytes, WireMessage}
use dstate.Engine.State.{Engine, EngineAction}
use dstate.Engine.Outbound.{mutate, mutate_with_delta, flush_change_feed, periodic_sync}
use dstate.Engine.Inbound.{handle_inbound}
use dstate.Engine.Cluster.{on_node_joined, on_node_left}

-- A call that changes the engine, with the reading of the clock that it takes.
pub data Event (S V DC VD : Type 0) : Type 0 where
  mutates : Clock → (S → S) → (S → V) → SyncUrgency → Event S V DC VD
  mutates_with_delta :
      Clock → (S → S × DC) → (S → V) → (DC → VD) → SyncUrgency → (VD → Bytes) → Event S V DC VD
  receives : Clock → WireMessage → Event S V DC VD
  flushes : Event S V DC VD
  joins : Clock → NodeId → V → Event S V DC VD
  leaves : NodeId → Event S V DC VD
  syncs : Event S V DC VD

-- The rest of a run from the outcome of one call.
abbrev pub onward :
    {S V : Type 0}
    → (Engine S V → Option (Engine S V))
    → Option (Engine S V × List EngineAction)
    → Option (Engine S V)
onward rest none = none
onward rest (some r) = rest r.0

module _ {S V DC VD : Type 0} where
  unfoldable pub step : Event S V DC VD → Engine S V → Option (Engine S V × List EngineAction)
  step (mutates clock f p urgency) e = let r = mutate clock f p urgency e in some (r.0, r.1.actions)
  step (mutates_with_delta clock f p q urgency serialize_delta) e =
      let r = mutate_with_delta clock f p q urgency serialize_delta e in some (r.0, r.1.actions)
  step (receives clock msg) e = handle_inbound clock msg e
  step flushes e = some ((flush_change_feed e).0, [])
  step (joins clock node_id default_view) e = on_node_joined clock node_id default_view e
  step (leaves node_id) e = some (on_node_left node_id e, [])
  step syncs e = periodic_sync e

  -- The engine after a list of calls; `none` if one of them panics.
  unfoldable pub run : List (Event S V DC VD) → Engine S V → Option (Engine S V)
  run [] e = some e
  run (event ∷ events) e = onward (run events) (step event e)

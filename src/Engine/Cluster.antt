-- ===== src/Engine/Cluster.antt =====
-- Nodes that join and leave, in dstate/src/engine.rs.
use dstate.Base.{Bool, Option, List}
use dstate.Types.Envelope.{NodeId, Clock}
use dstate.Lifecycle
use dstate.Diagnostics.{remove_peer}
use dstate.Engine.State.{Engine, EngineAction, own_view_value}
use dstate.Engine.Inbound.{reply_own}

module _ {S V : Type 0} where
  -- The view map and the departed set after `LifecycleLogic::on_node_joined`.
  abbrev pub joined : Clock → NodeId → V → Engine S V → Engine S V
  joined clock node_id default_view e =
      let after = Lifecycle.on_node_joined clock node_id default_view e.lifecycle e.shard in
      record e { lifecycle = after.0; shard = after.1 }

  -- The one join action is a snapshot of the own view, sent to the node that joined.
  unfoldable pub on_node_joined :
      Clock → NodeId → V → Engine S V → Option (Engine S V × List EngineAction)
  unfolding own_view_value Lifecycle.on_node_joined
  on_node_joined clock node_id default_view e =
      let e' = joined clock node_id default_view e in reply_own node_id (own_view_value e') e'

  unfoldable pub on_node_left : NodeId → Engine S V → Engine S V
  unfolding Lifecycle.on_node_left
  on_node_left node_id e =
      let after = Lifecycle.on_node_left node_id e.lifecycle e.shard in
      record e {
        lifecycle = after.0;
        shard = after.1;
        diagnostics = remove_peer node_id e.diagnostics;
      }

  unfoldable pub should_accept_from : NodeId → Engine S V → Bool
  should_accept_from node_id e = Lifecycle.should_accept_from node_id e.lifecycle

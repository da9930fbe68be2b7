-- ===== src/Integration/Routing.antt =====
-- How the cluster calls the engines of its nodes and routes their actions, in
-- dstate-integration/src/cluster.rs.
use dstate.Base.{◌+◌, ◌%◌, ◌^◌, Option, none, some, List, [], ◌∷◌}
use dstate.HashMap
use dstate.HashMap.{HashMap, keys}
use dstate.Types.Envelope.{NodeId, Clock}
use dstate.Types.Message.{Bytes, WireMessage, sync}
use dstate.Engine.State.{Engine, EngineAction, broadcast_sync, send_sync, schedule_delayed}
use dstate.Engine.Inbound.{handle_inbound}
use dstate.Engine.Cluster.{on_node_joined}
use dstate.Integration.Transport.{DeliveredMessage, send, broadcast}
use dstate.Integration.Cluster.{
  MockNode, MockCluster, NodeActions, keep_actions, delay_ticks, all_node_ids, schedule,
}

module _ {S V : Type 0} where
  -- The outcome of a call of an engine of `nodes`: the actions are kept, and the node is written back.
  abbrev pub called :
      NodeId
      → MockNode S V
      → HashMap (MockNode S V)
      → Option (Engine S V × List EngineAction)
      → Option (HashMap (MockNode S V) × List EngineAction)
  called n node nodes none = none
  called n node nodes (some r) = some (HashMap.insert n (record node { engine = r.0 }) nodes, r.1)

  -- The actions of a call before those of the later calls.
  abbrev pub kept :
      NodeId
      → List EngineAction
      → Option (HashMap (MockNode S V) × NodeActions)
      → Option (HashMap (MockNode S V) × NodeActions)
  kept n actions none = none
  kept n actions (some r) = some (r.0, keep_actions n actions r.1)

  abbrev pub then_nodes :
      NodeId
      → (HashMap (MockNode S V) → Option (HashMap (MockNode S V) × NodeActions))
      → Option (HashMap (MockNode S V) × List EngineAction)
      → Option (HashMap (MockNode S V) × NodeActions)
  then_nodes n rest none = none
  then_nodes n rest (some r) = kept n r.1 (rest r.0)

  -- A delivered message at its node; nothing, if the node is not in the cluster.
  abbrev pub receive_at :
      Clock
      → DeliveredMessage
      → HashMap (MockNode S V)
      → Option (MockNode S V)
      → Option (HashMap (MockNode S V) × List EngineAction)
  receive_at clock msg nodes none = some (nodes, [])
  receive_at clock msg nodes (some node) =
      called msg.to node nodes (handle_inbound clock msg.message node.engine)

  -- The loop over `delivery.delivered`.
  unfoldable pub receive_each :
      Clock
      → List DeliveredMessage
      → HashMap (MockNode S V)
      → Option (HashMap (MockNode S V) × NodeActions)
  unfolding HashMap.get HashMap.insert handle_inbound
  receive_each clock [] nodes = some (nodes, [])
  receive_each clock (msg ∷ messages) nodes =
      then_nodes msg.to (receive_each clock messages)
        (receive_at clock msg nodes (HashMap.get msg.to nodes))

  -- `unwrap` on the node, and the announcement of the new one.
  abbrev pub announce_at :
      Clock
      → NodeId
      → V
      → NodeId
      → HashMap (MockNode S V)
      → Option (MockNode S V)
      → Option (HashMap (MockNode S V) × List EngineAction)
  announce_at clock new_id default_view n nodes none = none
  announce_at clock new_id default_view n nodes (some node) =
      called n node nodes (on_node_joined clock new_id default_view node.engine)

  -- The new node is announced to the existing ones.
  unfoldable pub announce_each :
      Clock
      → NodeId
      → V
      → List NodeId
      → HashMap (MockNode S V)
      → Option (HashMap (MockNode S V) × NodeActions)
  unfolding HashMap.get HashMap.insert on_node_joined
  announce_each clock new_id default_view [] nodes = some (nodes, [])
  announce_each clock new_id default_view (n ∷ ids) nodes =
      then_nodes n (announce_each clock new_id default_view ids)
        (announce_at clock new_id default_view n nodes (HashMap.get n nodes))

  abbrev pub introduced :
      List EngineAction
      → Option (Engine S V × NodeActions)
      → NodeId
      → Option (Engine S V × NodeActions)
  introduced actions none own = none
  introduced actions (some r) own = some (r.0, keep_actions own actions r.1)

  abbrev pub then_engine :
      NodeId
      → (Engine S V → Option (Engine S V × NodeActions))
      → Option (Engine S V × List EngineAction)
      → Option (Engine S V × NodeActions)
  then_engine own rest none = none
  then_engine own rest (some r) = introduced r.1 (rest r.0) own

  -- The existing nodes are announced to the new one, `own`.
  unfoldable pub introduce_each :
      Clock → NodeId → V → List NodeId → Engine S V → Option (Engine S V × NodeActions)
  unfolding on_node_joined
  introduce_each clock own default_view [] e = some (e, [])
  introduce_each clock own default_view (n ∷ ids) e =
      then_engine own (introduce_each clock own default_view ids)
        (on_node_joined clock n default_view e)

  module _ (serialize : WireMessage → Bytes) where
    abbrev pub broadcasts : NodeId → WireMessage → List NodeId → MockCluster S V → MockCluster S V
    broadcasts from msg all_nodes c = record c {
      transport = broadcast serialize from msg all_nodes c.transport;
    }

    -- One round of the loop of `route_actions`.
    unfoldable pub route_action :
        NodeId → List NodeId → EngineAction → MockCluster S V → MockCluster S V
    unfolding broadcast send schedule delay_ticks
    route_action from all_nodes (broadcast_sync msg) c = broadcasts from (sync msg) all_nodes c
    route_action from all_nodes (send_sync target message) c = record c {
      transport = send serialize from target (sync message) c.transport;
    }
    route_action from all_nodes (schedule_delayed delay message) c =
        schedule from
          (record {
            message = message;
            deliver_at_tick = (c.current_tick + delay_ticks c.tick_duration delay) % 2 ^ 64;
          })
          c

    unfoldable pub route_each :
        NodeId → List NodeId → List EngineAction → MockCluster S V → MockCluster S V
    unfolding route_action
    route_each from all_nodes [] c = c
    route_each from all_nodes (action ∷ actions) c =
        route_each from all_nodes actions (route_action from all_nodes action c)

    unfoldable pub route_actions : NodeId → List EngineAction → MockCluster S V → MockCluster S V
    unfolding route_each
    route_actions from actions c = route_each from (all_node_ids c) actions c

    unfoldable pub route_all : NodeActions → MockCluster S V → MockCluster S V
    unfolding route_actions
    route_all [] c = c
    route_all ((n, actions) ∷ all) c = route_all all (route_actions n actions c)

-- ===== src/Actor/Handlers.antt =====
-- The handlers of dstate-dactor/src/state_actor.rs. A handler returns `none` where the engine panics.
use dstate.Base.{true, Option, none, some, List, [], map}
use dstate.HashMap
use dstate.HashMap.{HashMap}
use dstate.Types.Config.{Duration}
use dstate.Types.Envelope.{Clock, StateViewObject}
use dstate.Types.Message.{BatchedChangeFeed, feed}
use dstate.Engine.State.{Engine, EngineAction, EngineQueryResult, fresh, stale}
use dstate.Engine.Outbound.{mutate, flush_change_feed, periodic_sync}
use dstate.Engine.Inbound.{handle_inbound, handle_inbound_sync}
use dstate.Engine.Cluster.{on_node_joined, on_node_left}
use dstate.Engine.Query.{query}
use dstate.Actor.Messages.{
  ClusterChange, node_joined, node_left, ActorMessage, mutate_message, inbound_sync, inbound_wire,
  query_views, cluster_change, periodic_sync_message, flush_change_feed_message, QueryReply,
}
use dstate.Actor.Routing.{
  StateActor, Effects, no_effects, SenderCall, sends_wire, other_senders, route_actions,
}

-- The views and the result that `query` returned together.
abbrev pub split_result :
    {V : Type 0} → EngineQueryResult (HashMap (StateViewObject V)) → QueryReply V
split_result (fresh views) = record { views = views; result = fresh tt }
split_result (stale views stale_peers) = record { views = views; result = stale tt stale_peers }

module _ {S V P : Type 0} where
  -- The actor after a call of the engine, and the routing of the actions.
  abbrev pub routed :
      StateActor S V P → Engine S V × List EngineAction → StateActor S V P × Effects P
  routed a r = let a' = record a { engine = r.0 } in (a', route_actions r.1 a')

  abbrev pub routed? :
      StateActor S V P
      → Option (Engine S V × List EngineAction)
      → Option (StateActor S V P × Effects P)
  routed? a none = none
  routed? a (some r) = some (routed a r)

  unfoldable pub handle_query : Clock → Duration → StateActor S V P → Effects P × QueryReply V
  unfolding route_actions query
  handle_query clock max_staleness a =
      let r = query clock max_staleness (λ view_map. view_map) a.engine in
      (route_actions r.1 a, split_result r.0)

  unfoldable pub handle_cluster_change :
      Clock → ClusterChange V → StateActor S V P → Option (StateActor S V P × Effects P)
  unfolding route_actions on_node_joined on_node_left HashMap.remove
  handle_cluster_change clock (node_joined node_id default_view) a =
      routed? a (on_node_joined clock node_id default_view a.engine)
  handle_cluster_change clock (node_left node_id) a = some (
    record a { engine = on_node_left node_id a.engine; peers = HashMap.remove node_id a.peers },
    no_effects,
  )

  -- The call of every other sender with a feed that was flushed.
  abbrev pub feed_calls : Option BatchedChangeFeed → StateActor S V P → List (SenderCall P)
  feed_calls none a = []
  feed_calls (some batch) a =
      map (λ entry. sends_wire entry.1 (feed batch)) (other_senders a.engine.shard.node_id a.peers)

  unfoldable pub handle_flush : StateActor S V P → StateActor S V P × Effects P
  unfolding flush_change_feed other_senders
  handle_flush a =
      let flushed = flush_change_feed a.engine in
      let a' = record a { engine = flushed.0 } in
      (a', record { calls = feed_calls flushed.1 a'; spawned = [] })

  -- Every handler; the reply to a query is `handle_query`.
  unfoldable pub handle :
      Clock → ActorMessage S V → StateActor S V P → Option (StateActor S V P × Effects P)
  unfolding handle_query handle_cluster_change handle_flush route_actions handle_inbound
      handle_inbound_sync mutate periodic_sync
  handle clock (mutate_message mutate_fn project_fn urgency) a =
      let r = mutate clock mutate_fn project_fn urgency a.engine in
      some (routed a (r.0, r.1.actions))
  handle clock (inbound_sync message) a = routed? a (handle_inbound_sync clock message a.engine)
  handle clock (inbound_wire message) a = routed? a (handle_inbound clock message a.engine)
  handle clock (query_views max_staleness) a = some (a, (handle_query clock max_staleness a).0)
  handle clock (cluster_change change) a = handle_cluster_change clock change a
  handle clock periodic_sync_message a = routed? a (periodic_sync a.engine)
  handle clock flush_change_feed_message a = some (handle_flush a)

  unfoldable pub on_stop : StateActor S V P → StateActor S V P
  on_stop a = record a { cancel_token = true }

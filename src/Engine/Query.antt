-- ===== src/Engine/Query.antt =====
-- Queries, metrics and health, in dstate/src/engine.rs.
use dstate.Base.{List, [], map, filter, if◌then◌else◌}
use dstate.HashMap.{HashMap}
use dstate.Types.Config.{Duration}
use dstate.Types.Envelope.{NodeId, Clock, StateViewObject}
use dstate.Types.Message.{request_snapshot}
use dstate.Shard.State.{QueryResult}
use dstate.Shard.Query.{query_local}
use dstate.Lifecycle.{should_accept_from}
use dstate.Diagnostics.{StateSyncMetrics}
use dstate.Diagnostics.Health.{StateHealth, health_status}
use dstate.Engine.State.{Engine, EngineAction, send_sync, EngineQueryResult, fresh, stale}

module _ {S V : Type 0} where
  -- A request to each stale peer that has not departed.
  abbrev pub pulls : List NodeId → Engine S V → List EngineAction
  pulls stale_peers e =
      map (λ peer. send_sync peer (request_snapshot e.state_name e.shard.node_id))
        (filter (λ peer. should_accept_from peer e.lifecycle) stale_peers)

  abbrev pub answer :
      {R : Type 0} → QueryResult R → Engine S V → EngineQueryResult R × List EngineAction
  answer (QueryResult.fresh r) e = (fresh r, [])
  answer (QueryResult.stale_peers_detected stale_peers result) e = (
    stale result stale_peers,
    if e.sync_logic.strategy.pull_on_query then pulls stale_peers e else [],
  )

  unfoldable pub query :
      {R : Type 0}
      → Clock
      → Duration
      → (HashMap (StateViewObject V) → R)
      → Engine S V
      → EngineQueryResult R × List EngineAction
  query clock max_staleness project e = answer (query_local clock max_staleness project e.shard) e

  -- The public copies of the counters and of the health have the fields of the internal ones.
  abbrev pub metrics : Engine S V → StateSyncMetrics
  metrics e = e.diagnostics.metrics

  unfoldable pub health : Clock → Duration → Engine S V → StateHealth
  health clock max_staleness e = health_status clock max_staleness e.shard e.diagnostics

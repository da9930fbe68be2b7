-- ===== src/Shard/Query.antt =====
-- Staleness and local queries, in dstate/src/core/shard_core.rs.
use dstate.Base.{not, List, [], ◌∷◌, filter, ◌==◌}
use dstate.HashMap
use dstate.HashMap.{HashMap}
use dstate.Types.Config.{Duration}
use dstate.Types.Envelope.{NodeId, Clock, StateViewObject}
use dstate.ViewMap
use dstate.ViewMap.{ViewMap, is_stale}
use dstate.Shard.State.{ShardCore, QueryResult, fresh, stale_peers_detected, snapshot}

abbrev pub result_of : {R : Type 0} → List NodeId → R → QueryResult R
result_of [] result = fresh result
result_of (n ∷ stale) result = stale_peers_detected (n ∷ stale) result

module _ {S V : Type 0} where
  unfoldable pub stale_peers : Clock → Duration → ShardCore S V → List NodeId
  unfolding ViewMap.stale_peers
  stale_peers clock max_staleness s = ViewMap.stale_peers s.node_id max_staleness clock s.views

  unfoldable pub query_local :
      {R : Type 0}
      → Clock
      → Duration
      → (HashMap (StateViewObject V) → R)
      → ShardCore S V
      → QueryResult R
  unfolding is_stale
  query_local clock max_staleness project s =
      let stale = HashMap.keys (
        filter (λ e. is_stale clock.now max_staleness e.1)
          (filter (λ e. not (e.0 == s.node_id)) (snapshot s))) in
      result_of stale (project (snapshot s))

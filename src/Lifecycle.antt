-- ===== src/Lifecycle.antt =====
-- `LifecycleLogic` of dstate/src/core/lifecycle_logic.rs: the nodes that have left, whose late
-- messages are refused.
use dstate.Base.{ℕ, Bool, not, List, [], ◌∷◌}
use dstate.HashMap
use dstate.HashMap.{HashMap}
use dstate.Types.Envelope.{NodeId, Clock}
use dstate.Shard.State.{ShardCore}
use dstate.Shard.Membership

pub data JoinAction : Type 0 where
  send_snapshot_to_peer : NodeId → JoinAction

pub data LeaveAction : Type 0 where
  peer_removed : NodeId → LeaveAction

-- `HashSet<NodeId>`, a map into the unit type.
pub record LifecycleLogic : Type 0 where
  pub departed_nodes : HashMap (Unit {0})

abbrev pub new : LifecycleLogic
new = record { departed_nodes = [] }

module _ {S V : Type 0} where
  unfoldable pub on_node_joined :
      Clock
      → NodeId
      → V
      → LifecycleLogic
      → ShardCore S V
      → LifecycleLogic × ShardCore S V × List JoinAction
  on_node_joined clock node_id default_view l shard = (
    record { departed_nodes = HashMap.remove node_id l.departed_nodes },
    Membership.on_node_joined clock node_id default_view shard,
    send_snapshot_to_peer node_id ∷ [],
  )

  unfoldable pub on_node_left :
      NodeId → LifecycleLogic → ShardCore S V → LifecycleLogic × ShardCore S V × LeaveAction
  on_node_left node_id l shard = (
    record { departed_nodes = HashMap.insert node_id tt l.departed_nodes },
    Membership.on_node_left node_id shard,
    peer_removed node_id,
  )

unfoldable pub is_departed : NodeId → LifecycleLogic → Bool
is_departed node_id l = HashMap.contains_key node_id l.departed_nodes

unfoldable pub should_accept_from : NodeId → LifecycleLogic → Bool
unfolding is_departed
should_accept_from node_id l = not (is_departed node_id l)

abbrev pub departed_count : LifecycleLogic → ℕ
departed_count l = HashMap.len l.departed_nodes

-- ===== src/Shard/Membership.antt =====
-- Nodes that join and leave, in dstate/src/core/shard_core.rs.
use dstate.Base.{some, pos, ◌==◌, if◌then◌else◌}
use dstate.Types.Envelope.{NodeId, Clock, StateViewObject}
use dstate.Types.Generation
use dstate.Types.Generation.{Generation, gt, lt, le}
use dstate.ViewMap
use dstate.ViewMap.{ViewMap, is_stale}
use dstate.Shard.State.{ShardCore}

module _ {V : Type 0} where
  -- The entry of a node that has joined and sent nothing yet.
  abbrev pub placeholder : Clock → NodeId → V → StateViewObject V
  placeholder clock node_id default_view = record {
    generation = Generation.zero_generation;
    wire_version = 0;
    value = default_view;
    created_time = pos 0;
    modified_time = pos 0;
    synced_at = clock.now;
    pending_remote_generation = some (Generation.new 1 0);
    source_node = node_id;
  }

module _ {S V : Type 0} where
  unfoldable pub on_node_joined : Clock → NodeId → V → ShardCore S V → ShardCore S V
  on_node_joined clock node_id default_view s = if node_id == s.node_id then s else record s {
    views = (ViewMap.insert_node node_id (placeholder clock node_id default_view) s.views).0;
  }

  unfoldable pub on_node_left : NodeId → ShardCore S V → ShardCore S V
  on_node_left node_id s =
      if node_id == s.node_id
      then s
      else record s { views = (ViewMap.remove_node node_id s.views).0 }

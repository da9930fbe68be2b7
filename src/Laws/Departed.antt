-- ===== src/Laws/Departed.antt =====
-- Messages of a node that has left, in dstate/src/engine.rs.
use dstate.Base.{String, ◌≡◌, ◌≢◌, eq_iff, ap, ◌∙◌, false, none, some, [], arith, eq_refl}
use dstate.HashMap.Laws.{get-insert}
use dstate.HashMap
use dstate.Types.Envelope.{NodeId, Clock}
use dstate.Types.Generation.{Generation}
use dstate.Types.Message.{SyncMessage, full_snapshot, delta_update, request_snapshot, sync}
use dstate.ViewMap.Laws.{get-remove_node}
use dstate.Shard.State.{ShardCore, get_view}
use dstate.Shard.Membership
use dstate.Lifecycle
use dstate.Lifecycle.{LifecycleLogic, should_accept_from}
use dstate.Engine.State.{Engine}
use dstate.Engine.Snapshot.{handle_full_snapshot}
use dstate.Engine.Delta.{handle_delta_update}
use dstate.Engine.Inbound.{handle_request_snapshot, handle_inbound_sync, feed_entry, handle_inbound}
use dstate.Engine.Cluster.{on_node_left}

-- The node that a message says it is from.
abbrev pub sender : SyncMessage → NodeId
sender (full_snapshot name source g w bytes) = source
sender (delta_update name source g w bytes) = source
sender (request_snapshot name requester) = requester

accepts-left :
    {S V : Type 0} (n : NodeId) (l : LifecycleLogic) (s : ShardCore S V)
    → should_accept_from n (Lifecycle.on_node_left n l s).0 ≡ false
unfolding should_accept_from Lifecycle.on_node_left Lifecycle.is_departed HashMap.contains_key
accepts-left n l s = rw (get-insert n n tt l.departed_nodes, eq_refl n)

module _ {S V : Type 0} where
  pub departed_ignored :
      (clock : Clock) (msg : SyncMessage) (e : Engine S V)
      → should_accept_from (sender msg) e.lifecycle ≡ false
      → handle_inbound clock (sync msg) e ≡ some (e, [])
  unfolding handle_inbound handle_inbound_sync handle_full_snapshot handle_delta_update
      handle_request_snapshot
  departed_ignored clock (full_snapshot name source g w bytes) e h = ground arith
  departed_ignored clock (delta_update name source g w bytes) e h = ground arith
  departed_ignored clock (request_snapshot name requester) e h = ground arith

  pub departed_feed_ignored :
      (name : String) (n : NodeId) (g : Generation) (e : Engine S V)
      → should_accept_from n e.lifecycle ≡ false
      → feed_entry (name, n, g) e ≡ e
  unfolding feed_entry
  departed_feed_ignored name n g e h = ground arith

  get_view-left :
      (n : NodeId) (s : ShardCore S V)
      → n ≢ s.node_id
      → get_view n (Membership.on_node_left n s) ≡ none
  unfolding get_view Membership.on_node_left
  get_view-left n s other =
      ground (arith, eq_iff n s.node_id, get-remove_node n n s.views, eq_refl n)

  -- Once another node has left, its view is gone, and no sync message from it and no feed entry of it
  -- changes anything or is answered, whatever it holds and whenever it arrives.
  pub left_is_silent :
      (n : NodeId) (e : Engine S V)
      → n ≢ e.shard.node_id
      → let gone = on_node_left n e in
        (get_view n gone.shard ≡ none)
        × ((clock : Clock) (msg : SyncMessage)
            → sender msg ≡ n
            → handle_inbound clock (sync msg) gone ≡ some (gone, []))
        × ((name : String) (g : Generation) → feed_entry (name, n, g) gone ≡ gone)
  unfolding on_node_left
  left_is_silent n e other =
      let refused = accepts-left n e.lifecycle e.shard in
      (
        unfold Lifecycle.on_node_left in get_view-left n e.shard other,
        λ clock msg from.
            departed_ignored clock msg _ (
              ap (λ (m : NodeId). should_accept_from m (on_node_left n e).lifecycle) from
              ∙ refused),
        λ name g. departed_feed_ignored name n g _ refused,
      )

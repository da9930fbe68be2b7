-- ===== src/Engine/Inbound.antt =====
-- Snapshot requests, change feeds and the dispatch of messages, in dstate/src/engine.rs.
use dstate.Base.{String, not, Option, none, some, List, [], ◌∷◌, ◌==◌, if◌then◌else◌}
use dstate.Types.Envelope.{NodeId, Clock}
use dstate.Types.Generation.{Generation}
use dstate.Types.Message.{
  SyncMessage, full_snapshot, delta_update, request_snapshot, BatchedChangeFeed, WireMessage, sync,
  feed,
}
use dstate.Shard.Inbound.{mark_stale}
use dstate.ChangeFeed.{route_inbound_batch}
use dstate.Lifecycle.{should_accept_from}
use dstate.Diagnostics.{record_snapshot_sent}
use dstate.Engine.State.{Engine, EngineAction, send_sync, own_view_value, snapshot_message}
use dstate.Engine.Snapshot.{handle_full_snapshot}
use dstate.Engine.Delta.{handle_delta_update}

module _ {S V : Type 0} where
  -- The reply with the view that was read, or the panic where there is none.
  abbrev pub reply_own : NodeId → Option V → Engine S V → Option (Engine S V × List EngineAction)
  reply_own requester none e = none
  reply_own requester (some view) e = some (
    record e { diagnostics = record_snapshot_sent e.diagnostics },
    send_sync requester (snapshot_message (e.serialize_view view) e) ∷ [],
  )

  unfoldable pub handle_request_snapshot :
      String → NodeId → Engine S V → Option (Engine S V × List EngineAction)
  unfolding own_view_value
  handle_request_snapshot state_name requester e =
      if not (state_name == e.state_name)
      then some (e, [])
      else if not (should_accept_from requester e.lifecycle)
      then some (e, [])
      else reply_own requester (own_view_value e) e

  unfoldable pub handle_inbound_sync :
      Clock → SyncMessage → Engine S V → Option (Engine S V × List EngineAction)
  unfolding handle_full_snapshot handle_delta_update handle_request_snapshot
  handle_inbound_sync clock (full_snapshot name source generation wire_version bytes) e =
      some (handle_full_snapshot clock name source generation wire_version bytes e)
  handle_inbound_sync clock (delta_update name source generation wire_version bytes) e =
      some (handle_delta_update clock name source generation wire_version bytes e)
  handle_inbound_sync clock (request_snapshot name requester) e =
      handle_request_snapshot name requester e

  -- One round of the loop of `handle_inbound_change_feed`.
  unfoldable pub feed_entry : String × NodeId × Generation → Engine S V → Engine S V
  feed_entry (name, source, gen) e =
      if not (name == e.state_name)
      then e
      else if not (should_accept_from source e.lifecycle)
      then e
      else record e { shard = mark_stale source gen.incarnation gen.age e.shard }

  unfoldable pub feed_entries : List (String × NodeId × Generation) → Engine S V → Engine S V
  unfolding feed_entry
  feed_entries [] e = e
  feed_entries (entry ∷ rest) e = feed_entries rest (feed_entry entry e)

  unfoldable pub handle_inbound_change_feed : BatchedChangeFeed → Engine S V → Engine S V
  unfolding feed_entries
  handle_inbound_change_feed batch e = feed_entries (route_inbound_batch batch e.shard.node_id) e

  unfoldable pub handle_inbound :
      Clock → WireMessage → Engine S V → Option (Engine S V × List EngineAction)
  unfolding handle_inbound_sync handle_inbound_change_feed
  handle_inbound clock (sync msg) e = handle_inbound_sync clock msg e
  handle_inbound clock (feed batch) e = some (handle_inbound_change_feed batch e, [])

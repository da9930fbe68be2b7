-- ===== src/Engine/Snapshot.antt =====
-- Inbound snapshots, in dstate/src/engine.rs.
use Prim.Native.String.{◌++◌}
use dstate.Base.{ℕ, String, not, List, [], ◌==◌, if◌then◌else◌}
use dstate.Types.Envelope.{NodeId, Clock}
use dstate.Types.Generation.{Generation}
use dstate.Types.Message.{Bytes}
use dstate.Shard.State.{AcceptResult}
use dstate.Shard.Inbound.{accept_inbound_snapshot}
use dstate.Shard.Membership.{on_node_left}
use dstate.Versioning.{
  VersionMismatchAction, keep_view, drop_view, InboundVersionResult, accepted, version_mismatch,
  malformed_data, on_inbound,
}
use dstate.Lifecycle.{should_accept_from}
use dstate.Diagnostics.{record_sync_failure, record_snapshot_received, record_stale_delta_discarded}
use dstate.Engine.State.{Engine, EngineAction}

module _ {S V : Type 0} where
  -- The engine after a failure of `source` is recorded.
  abbrev pub failed : Clock → NodeId → String → Engine S V → Engine S V
  failed clock source reason e = record e {
    diagnostics = record_sync_failure source reason clock e.diagnostics;
  }

  abbrev pub dropped : NodeId → Engine S V → Engine S V
  dropped source e = record e { shard = on_node_left source e.shard }

  -- A version mismatch of a snapshot, by policy.
  abbrev pub on_mismatch : Clock → NodeId → VersionMismatchAction → Engine S V → Engine S V
  on_mismatch clock source (drop_view v reason) e = dropped source (failed clock source reason e)
  on_mismatch clock source (keep_view v reason) e = failed clock source reason e

  abbrev pub snapshot_counted : Clock → NodeId → AcceptResult → Engine S V → Engine S V
  snapshot_counted clock source AcceptResult.accepted e = record e {
    diagnostics = record_snapshot_received source 0 clock e.diagnostics;
  }
  snapshot_counted clock source AcceptResult.discarded e = record e {
    diagnostics = record_stale_delta_discarded e.diagnostics;
  }

  -- A snapshot whose view was read: `created_time` and `modified_time` are the receiver's.
  unfoldable pub accept_view : Clock → NodeId → Generation → ℕ → V → Engine S V → Engine S V
  accept_view clock source generation wire_version view e =
      let outcome =
        accept_inbound_snapshot clock
          (record {
            source = source;
            generation = generation;
            wire_version = wire_version;
            view = view;
            created_time = clock.unix_ms;
            modified_time = clock.unix_ms;
          })
          e.shard in
      snapshot_counted clock source outcome.1 (record e { shard = outcome.0 })

  abbrev pub on_snapshot_read :
      Clock → NodeId → Generation → ℕ → InboundVersionResult V → Engine S V → Engine S V
  on_snapshot_read clock source generation wire_version (accepted view) e =
      accept_view clock source generation wire_version view e
  on_snapshot_read clock source generation wire_version (version_mismatch action) e =
      on_mismatch clock source action e
  on_snapshot_read clock source generation wire_version (malformed_data msg) e =
      failed clock source ("malformed: " ++ msg) e

  unfoldable pub handle_full_snapshot :
      Clock → String → NodeId → Generation → ℕ → Bytes → Engine S V → Engine S V × List EngineAction
  unfolding accept_view
  handle_full_snapshot clock state_name source generation wire_version bytes e =
      if not (state_name == e.state_name)
      then (e, [])
      else if not (should_accept_from source e.lifecycle)
      then (e, [])
      else (
        on_snapshot_read clock source generation wire_version
            (on_inbound bytes wire_version e.deserialize_view e.versioning) e,
        [],
      )

-- ===== src/Engine/Delta.antt =====
-- Inbound deltas, in dstate/src/engine.rs.
use Prim.Native.String.{◌++◌}
use dstate.Base.{
  ℕ, String, not, ◌||◌, Option, none, some, List, [], ◌∷◌, inc_u64, nat_eq, ◌==◌, if◌then◌else◌,
}
use dstate.Types.Envelope.{NodeId, Clock, StateViewObject}
use dstate.Types.Errors.{Result, ok, err, DeserializeError, unknown_version, malformed, decimal}
use dstate.Types.Generation.{Generation, le}
use dstate.Types.Message.{Bytes}
use dstate.Shard.State.{DeltaAcceptResult, applied, gap_detected, unknown_peer, get_view}
use dstate.Shard.Inbound.{accept_inbound_delta}
use dstate.Versioning.{VersionMismatchAction, keep_view, drop_view, on_deserialize_error}
use dstate.Lifecycle.{should_accept_from}
use dstate.Diagnostics.{record_delta_received, record_gap_detected, record_stale_delta_discarded}
use dstate.Engine.State.{Engine, EngineAction, InboundDeltaApplierFn, make_snapshot_request}
use dstate.Engine.Snapshot.{failed, dropped}

abbrev pub applier_reason : DeserializeError → String
applier_reason (unknown_version v) = "delta version mismatch: " ++ decimal v
applier_reason (malformed msg) = "delta malformed: " ++ msg

module _ {S V : Type 0} where
  abbrev pub request_from : NodeId → Engine S V → Engine S V × List EngineAction
  request_from source e = (e, make_snapshot_request source e ∷ [])

  abbrev pub gap_from : NodeId → Engine S V → Engine S V × List EngineAction
  gap_from source e =
      request_from source (record e { diagnostics = record_gap_detected source e.diagnostics })

  abbrev pub stale_delta : Engine S V → Engine S V × List EngineAction
  stale_delta e = (record e { diagnostics = record_stale_delta_discarded e.diagnostics }, [])

  abbrev pub delta_counted :
      Clock → NodeId → DeltaAcceptResult → Engine S V → Engine S V × List EngineAction
  delta_counted clock source applied e =
      (record e { diagnostics = record_delta_received source 0 clock e.diagnostics }, [])
  delta_counted clock source (gap_detected local incoming) e = gap_from source e
  delta_counted clock source DeltaAcceptResult.discarded e = stale_delta e
  delta_counted clock source unknown_peer e = request_from source e

  -- The rest of `handle_delta_update` once the applier has answered.
  unfoldable pub accept_delta :
      Clock
      → NodeId
      → Generation
      → ℕ
      → Result DeserializeError V
      → Engine S V
      → Engine S V × List EngineAction
  accept_delta clock source generation wire_version (ok new_view) e =
      let outcome =
        accept_inbound_delta clock source generation wire_version (λ existing. new_view) e.shard in
      delta_counted clock source outcome.1 (record e { shard = outcome.0 })
  accept_delta clock source generation wire_version (err reason) e =
      request_from source (failed clock source (applier_reason reason) e)

  -- The check of the generation before the applier is called.
  unfoldable pub apply_delta_to :
      Clock
      → NodeId
      → Generation
      → ℕ
      → Bytes
      → InboundDeltaApplierFn V
      → StateViewObject V
      → Engine S V
      → Engine S V × List EngineAction
  unfolding accept_delta le
  apply_delta_to clock source generation wire_version bytes applier current e =
      if not (nat_eq generation.incarnation current.generation.incarnation)
        || not (nat_eq generation.age (inc_u64 current.generation.age))
      then (if le generation current.generation then stale_delta e else gap_from source e)
      else accept_delta clock source generation wire_version
          (applier bytes wire_version current.value) e

  abbrev pub apply_delta :
      Clock
      → NodeId
      → Generation
      → ℕ
      → Bytes
      → Option (InboundDeltaApplierFn V)
      → Option (StateViewObject V)
      → Engine S V
      → Engine S V × List EngineAction
  apply_delta clock source generation wire_version bytes none view e = request_from source e
  apply_delta clock source generation wire_version bytes (some applier) none e =
      request_from source e
  apply_delta clock source generation wire_version bytes (some applier) (some current) e =
      apply_delta_to clock source generation wire_version bytes applier current e

  -- A version mismatch of a delta: the view is dropped before the failure is recorded.
  abbrev pub on_delta_mismatch : Clock → NodeId → VersionMismatchAction → Engine S V → Engine S V
  on_delta_mismatch clock source (drop_view v reason) e =
      failed clock source reason (dropped source e)
  on_delta_mismatch clock source (keep_view v reason) e = failed clock source reason e

  unfoldable pub handle_delta_update :
      Clock → String → NodeId → Generation → ℕ → Bytes → Engine S V → Engine S V × List EngineAction
  unfolding apply_delta_to
  handle_delta_update clock state_name source generation wire_version bytes e =
      if not (state_name == e.state_name)
      then (e, [])
      else if not (should_accept_from source e.lifecycle)
      then (e, [])
      else if not (nat_eq wire_version e.wire_version)
      then (on_delta_mismatch clock source (on_deserialize_error wire_version e.versioning) e, [])
      else apply_delta clock source generation wire_version bytes e.inbound_delta_applier
          (get_view source e.shard) e

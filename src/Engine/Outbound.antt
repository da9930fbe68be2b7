-- ===== src/Engine/Outbound.antt =====
-- Mutations and what they send, in dstate/src/engine.rs; the change feed and the periodic snapshot.
use dstate.Base.{not, Option, none, some, List, [], ◌∷◌, if◌then◌else◌}
use dstate.Types.Config.{SyncUrgency}
use dstate.Types.Envelope.{Clock}
use dstate.Types.Message.{Bytes, SyncMessage, delta_update, BatchedChangeFeed}
use dstate.Shard.Mutation.{apply_mutation, apply_mutation_with_delta}
use dstate.SyncLogic
use dstate.SyncLogic.{
  SyncAction, broadcast_snapshot, broadcast_delta, notify_change_feed, suppress, resolve_action,
  should_periodic_sync,
}
use dstate.ChangeFeed
use dstate.Diagnostics.{
  record_mutation, record_delta_sent, record_delta_immediate, record_snapshot_sent,
  record_delta_suppressed,
}
use dstate.Engine.State.{
  Engine, EngineAction, broadcast_sync, schedule_delayed, MutateResult, DeltaMutateResult,
  own_view_value, snapshot_message,
}

module _ {S V : Type 0} where
  -- The engine after `notify_change` for its own state.
  abbrev pub notified : Engine S V → Engine S V
  notified e = record e {
    change_feed =
        ChangeFeed.notify_change e.state_name e.shard.node_id e.shard.state.generation
          e.change_feed;
  }

  unfoldable pub sync_action_to_engine_actions_snapshot :
      SyncAction → V → Engine S V → Engine S V × List EngineAction
  sync_action_to_engine_actions_snapshot broadcast_snapshot view e = (
    record e { diagnostics = record_snapshot_sent e.diagnostics },
    broadcast_sync (snapshot_message (e.serialize_view view) e) ∷ [],
  )
  sync_action_to_engine_actions_snapshot broadcast_delta view e = (
    record e { diagnostics = record_snapshot_sent e.diagnostics },
    broadcast_sync (snapshot_message (e.serialize_view view) e) ∷ [],
  )
  sync_action_to_engine_actions_snapshot notify_change_feed view e = (notified e, [])
  sync_action_to_engine_actions_snapshot (SyncLogic.SyncAction.schedule_delayed delay) view e = (
    record e { diagnostics = record_snapshot_sent e.diagnostics },
    schedule_delayed delay (snapshot_message (e.serialize_view view) e) ∷ [],
  )
  sync_action_to_engine_actions_snapshot suppress view e =
      (record e { diagnostics = record_delta_suppressed e.diagnostics }, [])

  -- The `DeltaUpdate` that the engine builds around `data`.
  abbrev pub delta_message : Bytes → Engine S V → SyncMessage
  delta_message bytes e =
      delta_update e.state_name e.shard.node_id e.shard.state.generation e.wire_version bytes

  unfoldable pub sync_action_to_engine_actions_delta :
      {VD : Type 0}
      → SyncAction
      → V
      → VD
      → (VD → Bytes)
      → Engine S V
      → Engine S V × List EngineAction
  sync_action_to_engine_actions_delta broadcast_delta view view_delta serialize_delta e = (
    record e { diagnostics = record_delta_immediate (record_delta_sent e.diagnostics) },
    broadcast_sync (delta_message (serialize_delta view_delta) e) ∷ [],
  )
  sync_action_to_engine_actions_delta broadcast_snapshot view view_delta serialize_delta e = (
    record e { diagnostics = record_snapshot_sent e.diagnostics },
    broadcast_sync (snapshot_message (e.serialize_view view) e) ∷ [],
  )
  sync_action_to_engine_actions_delta notify_change_feed view view_delta serialize_delta e =
      (notified e, [])
  sync_action_to_engine_actions_delta (SyncLogic.SyncAction.schedule_delayed delay) view view_delta
        serialize_delta e =
      (
        record e { diagnostics = record_delta_sent e.diagnostics },
        schedule_delayed delay (delta_message (serialize_delta view_delta) e) ∷ [],
      )
  sync_action_to_engine_actions_delta suppress view view_delta serialize_delta e =
      (record e { diagnostics = record_delta_suppressed e.diagnostics }, [])

  unfoldable pub mutate :
      Clock → (S → S) → (S → V) → SyncUrgency → Engine S V → Engine S V × MutateResult V
  mutate clock mutate_fn project_fn urgency e =
      let outcome = apply_mutation clock mutate_fn project_fn e.shard in
      let mutated : Engine S V = record e {
        shard = outcome.0;
        diagnostics = record_mutation e.diagnostics;
      } in
      let sent =
        sync_action_to_engine_actions_snapshot (resolve_action urgency e.sync_logic) outcome.1.view
          mutated in
      (
        sent.0,
        record { generation = outcome.1.generation; view = outcome.1.view; actions = sent.1 },
      )

  unfoldable pub mutate_with_delta :
      {DC VD : Type 0}
      → Clock
      → (S → S × DC)
      → (S → V)
      → (DC → VD)
      → SyncUrgency
      → (VD → Bytes)
      → Engine S V
      → Engine S V × DeltaMutateResult V VD
  mutate_with_delta clock mutate_fn project_view_fn project_delta_fn urgency serialize_delta e =
      let outcome =
        apply_mutation_with_delta clock mutate_fn project_view_fn project_delta_fn e.shard in
      let mutated : Engine S V = record e {
        shard = outcome.0;
        diagnostics = record_mutation e.diagnostics;
      } in
      let sent =
        sync_action_to_engine_actions_delta (resolve_action urgency e.sync_logic) outcome.1.view
          outcome.1.view_delta serialize_delta mutated in
      (
        sent.0,
        record {
          generation = outcome.1.generation;
          view = outcome.1.view;
          view_delta = outcome.1.view_delta;
          actions = sent.1;
        },
      )

  unfoldable pub flush_change_feed : Engine S V → Engine S V × Option BatchedChangeFeed
  flush_change_feed e =
      let flushed = ChangeFeed.flush e.change_feed in
      (record e { change_feed = flushed.0 }, flushed.1)

  -- A broadcast of the view that was read, or the panic where there is none.
  abbrev pub broadcast_own : Option V → Engine S V → Option (Engine S V × List EngineAction)
  broadcast_own none e = none
  broadcast_own (some view) e = some (
    record e { diagnostics = record_snapshot_sent e.diagnostics },
    broadcast_sync (snapshot_message (e.serialize_view view) e) ∷ [],
  )

  unfoldable pub periodic_sync : Engine S V → Option (Engine S V × List EngineAction)
  unfolding own_view_value
  periodic_sync e =
      if not (should_periodic_sync e.sync_logic)
      then some (e, [])
      else broadcast_own (own_view_value e) e

-- ===== src/Engine/State.antt =====
-- The types of dstate/src/engine.rs, the construction of an engine and its helpers.
use dstate.Base.{ℕ, String, Option, none, some, List, is_some, as_u64}
use dstate.Types.Config.{Duration, StateConfig}
use dstate.Types.Envelope.{NodeId, Clock, StateViewObject}
use dstate.Types.Errors.{Result, DeserializeError}
use dstate.Types.Generation.{Generation}
use dstate.Types.Message.{Bytes, SyncMessage, full_snapshot, request_snapshot}
use dstate.Shard.State
use dstate.Shard.State.{ShardCore}
use dstate.SyncLogic
use dstate.SyncLogic.{SyncLogic}
use dstate.ChangeFeed
use dstate.ChangeFeed.{ChangeFeedLogic}
use dstate.Versioning
use dstate.Versioning.{VersioningLogic}
use dstate.Lifecycle
use dstate.Lifecycle.{LifecycleLogic}
use dstate.Diagnostics
use dstate.Diagnostics.{DiagnosticsLogic}

pub data EngineAction : Type 0 where
  broadcast_sync : SyncMessage → EngineAction
  send_sync : NodeId → SyncMessage → EngineAction
  schedule_delayed : Duration → SyncMessage → EngineAction

pub record MutateResult (V : Type 0) : Type 0 where
  pub generation : Generation
  pub view : V
  pub actions : List EngineAction

pub record DeltaMutateResult (V VD : Type 0) : Type 0 where
  pub generation : Generation
  pub view : V
  pub view_delta : VD
  pub actions : List EngineAction

pub data EngineQueryResult (R : Type 0) : Type 0 where
  fresh : R → EngineQueryResult R
  stale : R → List NodeId → EngineQueryResult R

-- `bytes`, `wire_version`, `current_view` to `new_view`
abbrev pub InboundDeltaApplierFn : Type 0 → Type 0
InboundDeltaApplierFn V = Bytes → ℕ → V → Result DeserializeError V

pub record Engine (S V : Type 0) : Type 0 where
  pub state_name : String
  pub wire_version : ℕ
  pub shard : ShardCore S V
  pub sync_logic : SyncLogic
  pub change_feed : ChangeFeedLogic
  pub versioning : VersioningLogic
  pub lifecycle : LifecycleLogic
  pub diagnostics : DiagnosticsLogic
  pub serialize_view : V → Bytes
  pub deserialize_view : Bytes → ℕ → Result DeserializeError V
  pub inbound_delta_applier : Option (InboundDeltaApplierFn V)

abbrev pub value_of : {V : Type 0} → Option (StateViewObject V) → Option V
value_of none = none
value_of (some vo) = some vo.value

module _ {S V : Type 0} where
  unfoldable pub new :
      String
      → NodeId
      → S
      → (S → V)
      → StateConfig
      → ℕ
      → Clock
      → (V → Bytes)
      → (Bytes → ℕ → Result DeserializeError V)
      → Option (InboundDeltaApplierFn V)
      → Engine S V
  unfolding State.new State.new_state_object
  new state_name node_id initial_value project_initial config wire_version clock serialize_view
        deserialize_view inbound_delta_applier =
      let state = State.new_state_object initial_value (as_u64 clock.unix_ms) clock in
      record {
        state_name = state_name;
        wire_version = wire_version;
        shard = State.new node_id state (project_initial state.value) clock;
        sync_logic = SyncLogic.new state_name config.sync_strategy (is_some inbound_delta_applier);
        change_feed = ChangeFeed.new node_id;
        versioning = Versioning.new state_name config.version_mismatch_policy wire_version 1;
        lifecycle = Lifecycle.new;
        diagnostics = Diagnostics.new state_name;
        serialize_view = serialize_view;
        deserialize_view = deserialize_view;
        inbound_delta_applier = inbound_delta_applier;
      }

  -- `none` where `expect("own view should always exist")` panics.
  unfoldable pub own_view_value : Engine S V → Option V
  own_view_value e = value_of (State.get_view e.shard.node_id e.shard)

  abbrev pub make_snapshot_request : NodeId → Engine S V → EngineAction
  make_snapshot_request target e = send_sync target (request_snapshot e.state_name e.shard.node_id)

  -- The `FullSnapshot` that the engine builds around `data`.
  abbrev pub snapshot_message : Bytes → Engine S V → SyncMessage
  snapshot_message bytes e =
      full_snapshot e.state_name e.shard.node_id e.shard.state.generation e.wire_version bytes

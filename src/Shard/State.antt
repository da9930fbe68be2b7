-- ===== src/Shard/State.antt =====
-- The types of dstate/src/core/shard_core.rs, the construction of a shard and its accessors.
use dstate.Base.{ℕ, ℤ, Option, none, List}
use dstate.HashMap.{HashMap}
use dstate.Types.Envelope.{NodeId, Clock, StateObject, StateViewObject}
use dstate.Types.Generation
use dstate.Types.Generation.{Generation, gt, lt, le}
use dstate.ViewMap
use dstate.ViewMap.{ViewMap, is_stale}

pub record InboundSnapshot (V : Type 0) : Type 0 where
  pub source : NodeId
  pub generation : Generation
  pub wire_version : ℕ
  pub view : V
  pub created_time : ℤ
  pub modified_time : ℤ

pub record MutationOutcome (V : Type 0) : Type 0 where
  pub generation : Generation
  pub view : V

pub record DeltaMutationOutcome (V VD : Type 0) : Type 0 where
  pub generation : Generation
  pub view : V
  pub view_delta : VD

pub record PreparedMutation (S V : Type 0) : Type 0 where
  pub base_generation : Generation
  pub new_state : StateObject S
  pub view : V

pub record PreparedDeltaMutation (S V VD : Type 0) : Type 0 where
  pub base_generation : Generation
  pub new_state : StateObject S
  pub view : V
  pub view_delta : VD

pub data AcceptResult : Type 0 where
  accepted discarded : AcceptResult

-- `gap_detected local incoming`
pub data DeltaAcceptResult : Type 0 where
  applied discarded : DeltaAcceptResult
  gap_detected : Generation → Generation → DeltaAcceptResult
  unknown_peer : DeltaAcceptResult

pub data QueryResult (R : Type 0) : Type 0 where
  fresh : R → QueryResult R
  stale_peers_detected : List NodeId → R → QueryResult R

pub record ShardCore (S V : Type 0) : Type 0 where
  pub node_id : NodeId
  pub state : StateObject S
  pub views : ViewMap V

module _ {S V : Type 0} where
  unfoldable pub new : NodeId → StateObject S → V → Clock → ShardCore S V
  new node_id state initial_view clock = record {
    node_id = node_id;
    state = state;
    views = ViewMap.new node_id (record {
      generation = state.generation;
      wire_version = state.storage_version;
      value = initial_view;
      created_time = state.created_time;
      modified_time = state.modified_time;
      synced_at = clock.now;
      pending_remote_generation = none;
      source_node = node_id;
    });
  }

  unfoldable pub get_view : NodeId → ShardCore S V → Option (StateViewObject V)
  get_view node_id s = ViewMap.get node_id s.views

  abbrev pub snapshot : ShardCore S V → HashMap (StateViewObject V)
  snapshot s = ViewMap.snapshot s.views

  abbrev pub view_count : ShardCore S V → ℕ
  view_count s = ViewMap.len s.views

unfoldable pub new_state_object : {S : Type 0} → S → ℕ → Clock → StateObject S
new_state_object value incarnation clock = record {
  generation = Generation.new incarnation 0;
  storage_version = 0;
  value = value;
  created_time = clock.unix_ms;
  modified_time = clock.unix_ms;
}

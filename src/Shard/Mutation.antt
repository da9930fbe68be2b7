-- ===== src/Shard/Mutation.antt =====
-- The mutations of dstate/src/core/shard_core.rs, direct and in two phases.
use dstate.Base.{Option, none, some, inc_u64, if◌then◌else◌}
use dstate.Types.Envelope.{NodeId, Clock, StateObject, StateViewObject}
use dstate.Types.Generation
use dstate.Types.Generation.{Generation, gt, lt, le}
use dstate.ViewMap
use dstate.ViewMap.{ViewMap, is_stale}
use dstate.Shard.State.{
  ShardCore, MutationOutcome, DeltaMutationOutcome, PreparedMutation, PreparedDeltaMutation,
}

module _ {V : Type 0} where
  -- The entry that `update_own_view` writes.
  abbrev pub own_entry : {S : Type 0} → Clock → V → NodeId → StateObject S → StateViewObject V
  own_entry clock view node_id state = record {
    generation = state.generation;
    wire_version = state.storage_version;
    value = view;
    created_time = state.created_time;
    modified_time = state.modified_time;
    synced_at = clock.now;
    pending_remote_generation = none;
    source_node = node_id;
  }

-- The state with its value replaced, one age older, modified now.
abbrev pub advanced : {S : Type 0} → Clock → S → StateObject S → StateObject S
advanced clock value state = record state {
  value = value;
  generation = record {
    incarnation = state.generation.incarnation;
    age = inc_u64 state.generation.age;
  };
  modified_time = clock.unix_ms;
}

module _ {S V : Type 0} where
  unfoldable pub update_own_view : Clock → V → ShardCore S V → ShardCore S V
  update_own_view clock view s = record s {
    views = (ViewMap.update s.node_id (own_entry clock view s.node_id s.state) s.views).0;
  }

  unfoldable pub apply_mutation :
      Clock → (S → S) → (S → V) → ShardCore S V → ShardCore S V × MutationOutcome V
  unfolding update_own_view
  apply_mutation clock mutate_fn project_fn s =
      let state = advanced clock (mutate_fn s.state.value) s.state in
      let view = project_fn state.value in
      (
        update_own_view clock view (record s { state = state }),
        record { generation = state.generation; view = view },
      )

  unfoldable pub apply_mutation_with_delta :
      {DC VD : Type 0}
      → Clock
      → (S → S × DC)
      → (S → V)
      → (DC → VD)
      → ShardCore S V
      → ShardCore S V × DeltaMutationOutcome V VD
  unfolding update_own_view
  apply_mutation_with_delta clock mutate_fn project_view_fn project_delta_fn s =
      let mutated = mutate_fn s.state.value in
      let state = advanced clock mutated.0 s.state in
      let view = project_view_fn state.value in
      (
        update_own_view clock view (record s { state = state }),
        record {
          generation = state.generation;
          view = view;
          view_delta = project_delta_fn mutated.1;
        },
      )

  unfoldable pub prepare_mutation : Clock → (S → S) → (S → V) → ShardCore S V → PreparedMutation S V
  prepare_mutation clock mutate_fn project_fn s =
      let new_state = advanced clock (mutate_fn s.state.value) s.state in
      record {
        base_generation = s.state.generation;
        new_state = new_state;
        view = project_fn new_state.value;
      }

  -- `assert_eq!` panics where the state has moved on.
  unfoldable pub commit_mutation :
      Clock → PreparedMutation S V → ShardCore S V → Option (ShardCore S V × MutationOutcome V)
  unfolding update_own_view
  commit_mutation clock prepared s =
      if Generation.eq prepared.base_generation s.state.generation
      then some (
        update_own_view clock prepared.view (record s { state = prepared.new_state }),
        record { generation = prepared.new_state.generation; view = prepared.view },
      )
      else none

  unfoldable pub prepare_mutation_with_delta :
      {DC VD : Type 0}
      → Clock
      → (S → S × DC)
      → (S → V)
      → (DC → VD)
      → ShardCore S V
      → PreparedDeltaMutation S V VD
  prepare_mutation_with_delta clock mutate_fn project_view_fn project_delta_fn s =
      let mutated = mutate_fn s.state.value in
      let new_state = advanced clock mutated.0 s.state in
      record {
        base_generation = s.state.generation;
        new_state = new_state;
        view = project_view_fn new_state.value;
        view_delta = project_delta_fn mutated.1;
      }

  unfoldable pub commit_delta_mutation :
      {VD : Type 0}
      → Clock
      → PreparedDeltaMutation S V VD
      → ShardCore S V
      → Option (ShardCore S V × DeltaMutationOutcome V VD)
  unfolding update_own_view
  commit_delta_mutation clock prepared s =
      if Generation.eq prepared.base_generation s.state.generation
      then some (
        update_own_view clock prepared.view (record s { state = prepared.new_state }),
        record {
          generation = prepared.new_state.generation;
          view = prepared.view;
          view_delta = prepared.view_delta;
        },
      )
      else none

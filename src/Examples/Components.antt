-- ===== src/Examples/Components.antt =====
-- The smaller components with concrete data, and the theorems on them applied.
use dstate.Base.{
  inl, ℕ, String, suc, ◌+◌, ◌≡◌, ◌≢◌, refl, pos, true, none, some, [], ◌∷◌, if◌then◌else◌, arith,
}
use dstate.HashMap
use dstate.HashMap.{HashMap}
use dstate.Types.Envelope.{StateObject}
use dstate.Types.Errors.{Result, ok, err}
use dstate.Types.Generation
use dstate.Types.Generation.{Generation, gt, lt, cmp}
use dstate.ViewMap
use dstate.ViewMap.{insert_node, update_if}
use dstate.Shard.State as ShardState
use dstate.Shard.State.{
  ShardCore, InboundSnapshot, DeltaAcceptResult, applied, gap_detected, new_state_object, get_view,
  snapshot,
}
use dstate.Shard.Membership.{on_node_joined}
use dstate.Shard.Mutation.{
  apply_mutation, apply_mutation_with_delta, prepare_mutation, commit_mutation,
  prepare_mutation_with_delta, commit_delta_mutation,
}
use dstate.Shard.Inbound.{
  accept_inbound_snapshot, snapshot_update, snapshot_entry, should_accept, mark_stale,
  delta_verdict,
}
use dstate.Startup.{PersistenceStartupLogic, initialize, into_state}
use dstate.Accumulator
use dstate.Accumulator.{DeltaAccumulator}
use dstate.Registry
use dstate.Registry.{AnyStateShard, StateRegistry}
use dstate.Engine.State
use dstate.Engine.State.{Engine, EngineAction, send_sync}
use dstate.Laws.Startup.{fallback_supersedes, loaded_keeps_generation}
use dstate.Laws.Pending.{pending_after_snapshot, late_feed_forgets}
use dstate.Laws.TwoPhase.{commit-prepare, commit_delta-prepare, commit_after_mutation}
use dstate.Laws.Verdict.{delta_verdict_lem, is_next}
use dstate.Laws.Registries.{flush-accumulate_all, accumulate_all, whole}
use dstate.Examples.Nodes.{clock_1, clock_2, engine_a, engine_b, held_of_a, snapshot_a}

engine_b-held : get_view "a" engine_b.shard ≡ some held_of_a
unfolding get_view State.new new_state_object ShardState.new accept_inbound_snapshot on_node_joined
    ViewMap.new ViewMap.get insert_node update_if HashMap.get HashMap.insert HashMap.contains_key
    snapshot_update should_accept gt cmp
engine_b-held = refl

add_two : ℕ → ℕ × ℕ
add_two n = (n + 2, 2)

-- What a node had stored in format 1.
abbrev stored : StateObject ℕ
stored = record {
  generation = Generation.new 9999 4;
  storage_version = 1;
  value = 3;
  created_time = pos 0;
  modified_time = pos 0;
}

abbrev at_version_2 : PersistenceStartupLogic
at_version_2 = record { current_storage_version = 2 }

refuse : ℕ → ℕ → Result String ℕ
refuse v from = err "too old"

one_is_not_two : stored.storage_version ≢ at_version_2.current_storage_version
one_is_not_two e = omega (arith, e)

fallback_supersedes_example :
    should_accept
      (into_state (initialize (ok (some stored)) 0 clock_1 refuse at_version_2)).generation
      (Generation.new 9999 4)
    ≡ true
unfolding refuse
fallback_supersedes_example =
    fallback_supersedes stored 0 clock_1 refuse at_version_2 "too old" one_is_not_two refl
      (omega arith)

abbrev at_version_1 : PersistenceStartupLogic
at_version_1 = record { current_storage_version = 1 }

-- At the same version, with a migration that would fail.
loaded_keeps_generation_example :
    let s = into_state (initialize (ok (some stored)) 0 clock_1 refuse at_version_1) in
    (s.generation ≡ Generation.new 9999 4)
    × (s.storage_version ≡ 1)
    × (s.created_time ≡ pos 0)
    × (s.modified_time ≡ pos 0)
    × (s.value ≡ 3)
loaded_keeps_generation_example =
    loaded_keeps_generation stored 0 0 clock_1 refuse at_version_1 (inl refl)

newer_snapshot : InboundSnapshot ℕ
newer_snapshot = record snapshot_a { generation = Generation.new 1000 1; view = 8 }

pending_after_snapshot_example :
    get_view "a"
      (accept_inbound_snapshot clock_2 newer_snapshot (mark_stale "a" 1000 2 engine_b.shard)).0
    ≡ some (record (snapshot_entry clock_2 newer_snapshot none) {
      pending_remote_generation =
          (if lt newer_snapshot.generation (Generation.new 1000 2)
            then some (Generation.new 1000 2)
            else none);
    })
unfolding newer_snapshot gt cmp should_accept
pending_after_snapshot_example =
    pending_after_snapshot clock_2 newer_snapshot (Generation.new 1000 2) engine_b.shard held_of_a
      engine_b-held refl refl

late_feed_forgets_example :
    get_view "a"
      (accept_inbound_snapshot clock_2 newer_snapshot
        (mark_stale "a" 1000 1 (mark_stale "a" 1000 2 engine_b.shard))).0
    ≡ some (snapshot_entry clock_2 newer_snapshot none)
unfolding newer_snapshot gt cmp
late_feed_forgets_example =
    late_feed_forgets clock_2 newer_snapshot (Generation.new 1000 1) (Generation.new 1000 2)
      engine_b.shard held_of_a engine_b-held refl refl refl

commit-prepare_example :
    commit_mutation clock_2 (prepare_mutation clock_2 suc (λ n. n) engine_a.shard) engine_a.shard
    ≡ some (apply_mutation clock_2 suc (λ n. n) engine_a.shard)
commit-prepare_example = commit-prepare clock_2 suc (λ n. n) engine_a.shard

commit_delta-prepare_example :
    commit_delta_mutation clock_2
      (prepare_mutation_with_delta clock_2 add_two (λ n. n) (λ d. d) engine_a.shard)
      engine_a.shard
    ≡ some (apply_mutation_with_delta clock_2 add_two (λ n. n) (λ d. d) engine_a.shard)
commit_delta-prepare_example = commit_delta-prepare clock_2 add_two (λ n. n) (λ d. d) engine_a.shard

commit_after_mutation_example :
    commit_mutation clock_2
      (prepare_mutation clock_1 suc (λ n. n) engine_a.shard)
      (apply_mutation clock_1 suc (λ n. n) engine_a.shard).0
    ≡ none
commit_after_mutation_example =
    commit_after_mutation clock_1 clock_2 suc suc (λ n. n) (λ n. n) engine_a.shard

delta_verdict_lem_example : delta_verdict (Generation.new 1000 1) (Generation.new 1000 0) ≡ (
    if is_next (Generation.new 1000 1) (Generation.new 1000 0)
    then applied
    else if gt (Generation.new 1000 1) (Generation.new 1000 0)
    then gap_detected (Generation.new 1000 0) (Generation.new 1000 1)
    else DeltaAcceptResult.discarded)
delta_verdict_lem_example =
    delta_verdict_lem (Generation.new 1000 1) (Generation.new 1000 0) (omega arith)

-- A shard that is its own name.
abbrev named : AnyStateShard String
named = record {
  state_name = λ s. s;
  on_node_joined = λ n s. s;
  on_node_left = λ n s. s;
  type_id = λ s. "Named";
  as_any = λ s. "Named";
}

flush-accumulate_all_example :
    let flushed = Accumulator.flush {VD = ℕ} (accumulate_all (1 ∷ 2 ∷ []) Accumulator.new) in
    (flushed.1 ≡ whole (1 ∷ 2 ∷ [])) × ((Accumulator.flush flushed.0).1 ≡ none)
flush-accumulate_all_example = flush-accumulate_all {VD = ℕ} (1 ∷ 2 ∷ []) Accumulator.new refl

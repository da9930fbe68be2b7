-- ===== src/Examples/Operations.antt =====
-- Single operations of the two nodes and of the smaller components, and the theorems on them applied.
use dstate.Base.{
  ℕ, String, suc, ◌+◌, ◌<◌, ◌^◌, ◌≡◌, ◌≢◌, refl, Bool, true, false, none, some, List, [], ◌∷◌,
  if◌then◌else◌, arith, ◌==◌, eq_iff, In, map, ◌↔◌, nat_eq, inc_u64, length, filter, ltb, ◌/◌, ◌&&◌,
}
use dstate.HashMap
use dstate.HashMap.{HashMap}
use dstate.Types.Config.{SyncUrgency}
use dstate.Types.Envelope.{NodeId, Clock, StateViewObject}
use dstate.Types.Generation
use dstate.Types.Generation.{Generation, gt, lt, cmp}
use dstate.Types.Message.{SyncMessage, full_snapshot, request_snapshot, sync}
use dstate.ViewMap
use dstate.ViewMap.{insert_node, update_if}
use dstate.Shard.State as ShardState
use dstate.Shard.State.{
  ShardCore, InboundSnapshot, DeltaAcceptResult, applied, gap_detected, new_state_object, get_view,
  snapshot,
}
use dstate.Shard.Membership.{on_node_joined}
use dstate.Shard.Inbound.{accept_inbound_snapshot, snapshot_update, should_accept}
use dstate.ChangeFeed
use dstate.ChangeFeed.{ChangeFeedLogic, notify_change, flush}
use dstate.Lifecycle.{should_accept_from, is_departed}
use dstate.Diagnostics.Health.{healthy, degraded, unhealthy, health_status}
use dstate.Engine.State
use dstate.Engine.State.{Engine, EngineAction, send_sync}
use dstate.Engine.Outbound.{mutate, mutate_with_delta}
use dstate.Engine.Inbound.{handle_inbound, feed_entry}
use dstate.Engine.Cluster.{on_node_left}
use dstate.Engine.Query.{query}
use dstate.Types.Message.{delta_update}
use dstate.Types.Generation.{le}
use dstate.ViewMap.Each.{Each-new}
use dstate.Shard.Each.{accept_inbound_snapshot-Each, on_node_joined-Each}
use dstate.Shard.Inbound.{accept_inbound_delta, delta_verdict}
use dstate.Lifecycle.{is_departed}
use dstate.Engine.Delta.{handle_delta_update, apply_delta_to, accept_delta}
use dstate.Engine.Inbound.{handle_inbound_sync}
use dstate.Replica.Forward.{IsBounded, handle_inbound_forward}
use dstate.Base.{pos}
use dstate.Examples.Nodes.{snapshot_a}
use dstate.Laws.Announce.{
  mutate_announces, mutate_with_delta_announces, IsAt, next_generation, snapshot_at, delta_at,
  table, feeds,
}
use dstate.Laws.Queries.{query_reports, answered, behind, IsBehind}
use dstate.Laws.Feed.{flush_tells_newest, notify_all, routed, IsDistinct, pending_for, newest_for}
use dstate.Laws.Departed.{left_is_silent, sender}
use dstate.Laws.Policy.{unreadable_by_policy, left_over, IsUnreadable}
use dstate.Laws.Healthy.{health_status_lem, well_other, stale_other, failing_other, other}
use dstate.Examples.Nodes.{
  clock_2, engine_a, engine_b, held_of_a, engine_a-WellFormed, engine_b-WellFormed, write_counter,
}

differ : (x y : String) → (x == y) ≡ false → x ≢ y
differ x y e same = ground (arith, eq_iff x y)

a_is_not_b : "a" ≢ engine_b.shard.node_id
unfolding State.new ShardState.new accept_inbound_snapshot on_node_joined
a_is_not_b = differ "a" "b" refl

engine_b-held : get_view "a" engine_b.shard ≡ some held_of_a
unfolding get_view State.new new_state_object ShardState.new accept_inbound_snapshot on_node_joined
    ViewMap.new ViewMap.get insert_node update_if HashMap.get HashMap.insert HashMap.contains_key
    snapshot_update should_accept gt cmp
engine_b-held = refl

mutate_announces_example :
    let r = mutate clock_2 suc (λ n. n) SyncUrgency.immediate engine_a in
    let g = next_generation engine_a.shard.state.generation in
    let message =
      snapshot_at engine_a g (engine_a.serialize_view (suc engine_a.shard.state.value)) in
    IsAt r.0.shard g (suc engine_a.shard.state.value) (suc engine_a.shard.state.value)
    × (r.1.generation ≡ g)
    × (r.1.view ≡ suc engine_a.shard.state.value)
    × (r.1.actions
        ≡ table SyncUrgency.immediate engine_a.sync_logic.strategy.push_mode message message)
    × (r.0.change_feed ≡ (
        if feeds SyncUrgency.immediate engine_a.sync_logic.strategy.push_mode
        then notify_change engine_a.state_name engine_a.shard.node_id g engine_a.change_feed
        else engine_a.change_feed))
mutate_announces_example =
    mutate_announces clock_2 suc (λ n. n) SyncUrgency.immediate engine_a engine_a-WellFormed

add_two : ℕ → ℕ × ℕ
add_two n = (n + 2, 2)

mutate_with_delta_announces_example :
    let r =
      mutate_with_delta clock_2 add_two
        (λ n. n)
        (λ d. d)
        (SyncUrgency.delayed 9)
        write_counter
        engine_a in
    let g = next_generation engine_a.shard.state.generation in
    let state = (add_two engine_a.shard.state.value).0 in
    let delta = delta_at engine_a g (write_counter (add_two engine_a.shard.state.value).1) in
    IsAt r.0.shard g state state
    × (r.1.generation ≡ g)
    × (r.1.view ≡ state)
    × (r.1.view_delta ≡ (add_two engine_a.shard.state.value).1)
    × (r.1.actions
        ≡ table
            (SyncUrgency.delayed 9)
            engine_a.sync_logic.strategy.push_mode
            (if engine_a.sync_logic.supports_delta
              then delta
              else snapshot_at engine_a g (engine_a.serialize_view state))
            delta)
    × (r.0.change_feed ≡ (
        if feeds (SyncUrgency.delayed 9) engine_a.sync_logic.strategy.push_mode
        then notify_change engine_a.state_name engine_a.shard.node_id g engine_a.change_feed
        else engine_a.change_feed))
mutate_with_delta_announces_example =
    mutate_with_delta_announces clock_2 add_two (λ n. n) (λ d. d) (SyncUrgency.delayed 9)
      write_counter engine_a engine_a-WellFormed

query_reports_example :
    let q = query clock_2 10 (λ m. length m) engine_b in
    (answered q.0 ≡ length (snapshot engine_b.shard))
    × ((n : NodeId) → In n (behind q.0) ↔ IsBehind clock_2 10 engine_b n)
    × (q.1 ≡ (
        if engine_b.sync_logic.strategy.pull_on_query
        then map
            (λ peer. send_sync peer (request_snapshot engine_b.state_name engine_b.shard.node_id))
            (behind q.0)
        else []))
query_reports_example = query_reports clock_2 10 (λ m. length m) engine_b engine_b-WellFormed

left_is_silent_example :
    let gone = on_node_left "a" engine_b in
    (get_view "a" gone.shard ≡ none)
    × ((clock : Clock) (msg : SyncMessage)
        → sender msg ≡ "a"
        → handle_inbound clock (sync msg) gone ≡ some (gone, []))
    × ((name : String) (g : Generation) → feed_entry (name, "a", g) gone ≡ gone)
left_is_silent_example = left_is_silent "a" engine_b a_is_not_b

changes : List (String × NodeId × Generation)
changes =
    ("counter", "a", Generation.new 1000 1)
    ∷ ("counter", "a", Generation.new 1000 2)
    ∷ ("other", "a", Generation.new 7 0)
    ∷ []

flush_tells_newest_example :
    let flushed = flush (notify_all changes (ChangeFeed.new "a")) in
    (flushed.0.pending ≡ [])
    × (routed flushed.1 "a" ≡ [])
    × ((receiver : NodeId)
        → "a" ≢ receiver
        → IsDistinct (routed flushed.1 receiver)
          × ((n : String) (s : NodeId)
              → pending_for n s (routed flushed.1 receiver) ≡ newest_for n s changes))
flush_tells_newest_example = flush_tells_newest changes (ChangeFeed.new "a") refl

a_is_heard : should_accept_from "a" engine_b.lifecycle ≡ true
unfolding State.new should_accept_from is_departed HashMap.contains_key HashMap.get
a_is_heard = refl

version_2 :
    IsUnreadable (full_snapshot "counter" "a" (Generation.new 1000 3) 2 (10 ∷ [])) "a" engine_b
unfolding State.new
version_2 = (refl, refl, 2, refl)

unreadable_by_policy_example :
    (r : Engine ℕ ℕ) × (handle_inbound clock_2
        (sync (full_snapshot "counter" "a" (Generation.new 1000 3) 2 (10 ∷ [])))
        engine_b
      ≡ some (r, []))
    × (get_view "a" r.shard
        ≡ left_over engine_b.versioning.policy "a" "a" (get_view "a" engine_b.shard))
    × (r.diagnostics.metrics.sync_failures ≡ inc_u64 engine_b.diagnostics.metrics.sync_failures)
    × (r.shard.state ≡ engine_b.shard.state)
unreadable_by_policy_example =
    unreadable_by_policy clock_2 (full_snapshot "counter" "a" (Generation.new 1000 3) 2 (10 ∷ []))
      "a" "a" engine_b a_is_not_b a_is_heard version_2

few_views : length (snapshot engine_b.shard) < 2 ^ 32
unfolding State.new ShardState.new accept_inbound_snapshot on_node_joined ViewMap.new insert_node
    update_if HashMap.get HashMap.insert HashMap.contains_key snapshot_update should_accept gt cmp
few_views = omega arith

health_status_lem_example :
    let h = health_status clock_2 10 engine_b.shard engine_b.diagnostics in
    let count =
      λ (p : NodeId × StateViewObject ℕ → Bool). length (filter p (snapshot engine_b.shard)) in
    let well = count (well_other "b" 50 10 engine_b.diagnostics.peers) in
    let late = count (stale_other "b" 50 10 engine_b.diagnostics.peers) in
    let failing = count (failing_other "b" 50 10 engine_b.diagnostics.peers) in
    let all = count (other "b" 50 10 engine_b.diagnostics.peers) in
    (h.healthy_peers ≡ well)
    × (h.stale_peers ≡ late)
    × (h.failing_peers ≡ failing)
    × (h.status ≡ (
        if nat_eq late 0 && nat_eq failing 0
        then healthy
        else if ltb (all / 2) well
        then degraded
        else unhealthy))
unfolding State.new ShardState.new accept_inbound_snapshot on_node_joined
health_status_lem_example =
    health_status_lem clock_2 10 engine_b.shard engine_b.diagnostics few_views

engine_b-IsBounded : IsBounded engine_b
unfolding State.new ShardState.new new_state_object
engine_b-IsBounded =
    accept_inbound_snapshot-Each clock_2 snapshot_a _
      (on_node_joined-Each clock_2 "a" 0 _ (Each-new "b" _ (omega arith)) (omega arith))
      (λ absent. omega arith) (λ old at newer. omega arith)

-- `held_of_a` after the delta of age 1.
abbrev next_of_a : StateViewObject ℕ
next_of_a = record held_of_a {
  generation = Generation.new 1000 1;
  value = 8;
  modified_time = pos 2000;
}

abbrev after_delta : Engine ℕ ℕ × List EngineAction
after_delta = handle_delta_update clock_2 "counter" "a" (Generation.new 1000 1) 1 (1 ∷ []) engine_b

after_delta-holds : ViewMap.get "a" after_delta.0.shard.views ≡ some next_of_a
unfolding handle_delta_update accept_inbound_delta delta_verdict apply_delta_to accept_delta
    get_view State.new new_state_object ShardState.new accept_inbound_snapshot on_node_joined
    ViewMap.new ViewMap.get ViewMap.update insert_node update_if HashMap.get HashMap.insert
    HashMap.contains_key snapshot_update should_accept should_accept_from is_departed gt cmp le
after_delta-holds = refl

returned :
    handle_inbound clock_2
      (sync (delta_update "counter" "a" (Generation.new 1000 1) 1 (1 ∷ [])))
      engine_b
    ≡ some (after_delta.0, after_delta.1)
unfolding handle_inbound handle_inbound_sync
returned = refl

at_a : ViewMap.get "a" engine_b.shard.views ≡ some held_of_a
unfolding get_view
at_a = engine_b-held

handle_inbound_forward_example : gt (Generation.new 1000 0) (Generation.new 1000 1) ≡ false
handle_inbound_forward_example =
    handle_inbound_forward clock_2
      (sync (delta_update "counter" "a" (Generation.new 1000 1) 1 (1 ∷ []))) engine_b after_delta.0
      after_delta.1 "a" held_of_a next_of_a engine_b-IsBounded (omega arith) returned at_a
      after_delta-holds

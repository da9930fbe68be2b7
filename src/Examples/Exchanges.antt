-- ===== src/Examples/Exchanges.antt =====
-- Exchanges between the two nodes, and the theorems on them applied.
use dstate.Base.{ℕ, ◌+◌, ◌≡◌, refl, false, some, List, [], ◌∷◌, inl, inr, arith, In}
use dstate.HashMap
use dstate.HashMap.{HashMap}
use dstate.Types.Config.{SyncUrgency}
use dstate.Types.Envelope.{Clock, StateViewObject}
use dstate.Types.Generation
use dstate.Types.Generation.{Generation, gt, cmp}
use dstate.Types.Message.{SyncMessage, delta_update, sync}
use dstate.ViewMap
use dstate.ViewMap.{insert_node, contains, update_if}
use dstate.Shard.State as ShardState
use dstate.Shard.State.{ShardCore, InboundSnapshot, new_state_object, get_view}
use dstate.Shard.Membership.{on_node_joined}
use dstate.Shard.Mutation.{update_own_view}
use dstate.Shard.Inbound.{accept_inbound_snapshot, snapshot_update, should_accept}
use dstate.Lifecycle.{should_accept_from, is_departed}
use dstate.Engine.State
use dstate.Engine.State.{
  Engine, EngineAction, broadcast_sync, send_sync, InboundDeltaApplierFn, own_view_value,
  make_snapshot_request,
}
use dstate.Engine.Inbound.{handle_inbound}
use dstate.Engine.Outbound.{mutate_with_delta}
use dstate.Laws.Recovery.{gap_recovers, Holds}
use dstate.Laws.Suppressed.{suppressed_leaves_gap}
use dstate.Laws.Newest.{said, known}
use dstate.Laws.Convergence.{deliver, deliver-converges}
use dstate.Examples.Nodes.{
  clock_1, clock_2, engine_a, engine_b, later_a, held_of_a, snapshot_a, write_counter, add_counter,
}

pub engine_b-holds : get_view "a" engine_b.shard ≡ some held_of_a
unfolding get_view State.new new_state_object ShardState.new accept_inbound_snapshot on_node_joined
    ViewMap.new ViewMap.get insert_node update_if HashMap.get HashMap.insert HashMap.contains_key
    snapshot_update should_accept gt cmp
engine_b-holds = refl

gap_recovers_example :
    (ask reply : SyncMessage) × (r1 o1 r2 : Engine ℕ ℕ) × (handle_inbound clock_1
        (sync (delta_update "counter" "a" (Generation.new 1000 2) 1 (1 ∷ [])))
        engine_b
      ≡ some (r1, send_sync "a" ask ∷ []))
    × (handle_inbound clock_1 (sync ask) later_a ≡ some (o1, send_sync "b" reply ∷ []))
    × (handle_inbound clock_2 (sync reply) r1 ≡ some (r2, []))
    × Holds "a" (Generation.new 1000 2) 9 r2
unfolding State.new new_state_object ShardState.new accept_inbound_snapshot on_node_joined
    update_own_view should_accept_from is_departed HashMap.contains_key HashMap.get HashMap.insert
    own_view_value get_view ViewMap.new ViewMap.get ViewMap.update gt cmp insert_node update_if
    snapshot_update should_accept
gap_recovers_example =
    gap_recovers clock_1 clock_1 clock_2 later_a engine_b (1 ∷ []) 9 add_counter held_of_a refl refl
      refl refl refl refl engine_b-holds refl refl refl

add_with_delta : ℕ → ℕ × ℕ
add_with_delta n = (n + 1, 1)

-- The delta of the second mutation alone, two generations on.
abbrev only_second : SyncMessage
only_second = delta_update "counter" "a" (Generation.new 1000 2) 1 (write_counter 1)

suppressed_leaves_gap_example :
    let first =
      mutate_with_delta clock_1 add_with_delta
        (λ n. n)
        (λ d. d)
        SyncUrgency.suppress
        write_counter
        engine_a in
    let second =
      mutate_with_delta clock_2 add_with_delta
        (λ n. n)
        (λ d. d)
        SyncUrgency.immediate
        write_counter
        first.0 in
    (first.1.actions ≡ [])
    × (second.1.actions ≡ broadcast_sync only_second ∷ [])
    × (r' : Engine ℕ ℕ) × (handle_inbound clock_2 (sync only_second) engine_b
        ≡ some (r', make_snapshot_request engine_a.shard.node_id engine_b ∷ []))
    × (r'.shard ≡ engine_b.shard)
unfolding State.new new_state_object ShardState.new accept_inbound_snapshot on_node_joined
    should_accept_from is_departed HashMap.contains_key HashMap.get get_view add_with_delta
suppressed_leaves_gap_example =
    suppressed_leaves_gap clock_1 clock_2 clock_2 add_with_delta add_with_delta (λ n. n) (λ d. d)
      write_counter engine_a engine_b add_counter held_of_a refl refl refl refl refl engine_b-holds
      refl (omega arith)

-- The snapshot of the counter of `a` at an age.
abbrev counted_at : ℕ → InboundSnapshot ℕ
counted_at n = record snapshot_a { generation = Generation.new 1000 n; view = 7 + n }

abbrev in_order : List (Clock × InboundSnapshot ℕ)
in_order = (clock_1, counted_at 1) ∷ (clock_1, counted_at 2) ∷ []

-- The newer one first, and again at the end.
abbrev out_of_order : List (Clock × InboundSnapshot ℕ)
out_of_order = (clock_2, counted_at 2) ∷ (clock_2, counted_at 1) ∷ (clock_2, counted_at 2) ∷ []

one_view :
    (g : Generation) (v w : ℕ) → In (g, v) (said in_order) → In (g, w) (said in_order) → v ≡ w
one_view g v w a b = ground arith

there : (g : Generation) (v : ℕ) → In (g, v) (said in_order) → In (g, v) (said out_of_order)
there g v (inl first) = inr (inl first)
there g v (inr (inl second)) = inl second
there g v (inr (inr nothing)) = absurd nothing

back : (g : Generation) (v : ℕ) → In (g, v) (said out_of_order) → In (g, v) (said in_order)
back g v (inl second) = inr (inl second)
back g v (inr (inl first)) = inl first
back g v (inr (inr (inl second))) = inr (inl second)
back g v (inr (inr (inr nothing))) = absurd nothing

deliver-converges_example :
    (a b : StateViewObject ℕ) × (get_view "a" (deliver in_order engine_b.shard) ≡ some a)
    × (get_view "a" (deliver out_of_order engine_b.shard) ≡ some b)
    × (a.generation ≡ b.generation)
    × (a.value ≡ b.value)
    × In (a.generation, a.value) (known held_of_a (said in_order))
    × ((g : Generation) (v : ℕ)
        → In (g, v) (known held_of_a (said in_order))
        → gt g a.generation ≡ false)
deliver-converges_example =
    deliver-converges "a" in_order out_of_order engine_b.shard engine_b.shard held_of_a
      (refl, (refl, tt)) (refl, (refl, (refl, tt))) engine_b-holds engine_b-holds there back
      one_view

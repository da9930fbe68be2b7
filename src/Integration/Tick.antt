-- ===== src/Integration/Tick.antt =====
-- The operations of `MockCluster` of dstate-integration/src/cluster.rs.
use dstate.Base.{
  ℕ, zero, suc, ◌+◌, ◌%◌, ◌^◌, inc_u64, String, Bool, not, Option, none, some, List, [], ◌∷◌,
  filter, length, leb, ltb, if◌then◌else◌,
}
use dstate.HashMap
use dstate.HashMap.{HashMap, contains_key}
use dstate.BTreeMap.{insert_sorted}
use dstate.Types.Config.{SyncUrgency}
use dstate.Types.Envelope.{NodeId}
use dstate.Types.Errors.{Result}
use dstate.Types.Message.{Bytes, BatchedChangeFeed, WireMessage, sync, feed}
use dstate.ChangeFeed.{pending_count}
use dstate.Engine.State.{Engine}
use dstate.Engine.Outbound as Outbound
use dstate.Engine.Outbound.{flush_change_feed}
use dstate.TestSupport.Clock
use dstate.TestSupport.Clock.{reading}
use dstate.Integration.Transport.{deliver_due, advance_tick}
use dstate.Integration.Cluster.{
  ScheduledAction, MockNode, MockCluster, NodeActions, feed_interval, all_node_ids, with_node,
  is_settled,
}
use dstate.Integration.Routing.{
  receive_each, announce_each, introduce_each, broadcasts, route_actions, route_all,
}

-- `?` on clusters: the rest of an operation, unless the first part panicked.
abbrev pub and_then {ℓ κ} : {A : Type ℓ} → {B : Type κ} → Option A → (A → Option B) → Option B
and_then none f = none
and_then (some a) f = f a

abbrev pub is_due : ℕ → ScheduledAction → Bool
is_due now action = leb action.deliver_at_tick now

module _ {S V : Type 0} where
  abbrev with_nodes : HashMap (MockNode S V) → MockCluster S V → MockCluster S V
  with_nodes nodes c = record c { nodes = nodes }

  unfoldable pub advance_all : MockCluster S V → MockCluster S V
  unfolding Clock.advance advance_tick
  advance_all c = record c {
    clock = Clock.advance c.tick_duration c.clock;
    transport = advance_tick c.transport;
    current_tick = inc_u64 c.current_tick;
  }

module _ {S V : Type 0} (serialize : WireMessage → Bytes) where
  -- The new node goes in, and the actions of its engine are routed.
  abbrev pub admit : NodeId → ℕ → Engine S V → NodeActions → MockCluster S V → MockCluster S V
  admit new_id interval e actions c =
      let node : MockNode S V = record {
        engine = e;
        scheduled = [];
        feed_flush_counter = 0;
        feed_flush_interval = interval;
      } in
      route_all serialize actions (with_nodes (insert_sorted new_id node c.nodes) c)

  unfoldable pub add_node : Engine S V → V → MockCluster S V → Option (MockCluster S V)
  unfolding announce_each introduce_each route_all feed_interval insert_sorted contains_key
  add_node engine default_view c =
      let new_id = engine.shard.node_id in
      let existing_ids = all_node_ids c in
      let clock = reading c.clock in
      let batch_interval = engine.sync_logic.strategy.change_feed.batch_interval in
      let interval = feed_interval c.tick_duration batch_interval in
      if contains_key new_id c.nodes
      then none
      else and_then (announce_each clock new_id default_view existing_ids c.nodes) (λ announced.
        let c1 = route_all serialize announced.1 (with_nodes announced.0 c) in
        and_then (introduce_each clock new_id default_view existing_ids engine)
          (λ introduced. some (admit new_id interval introduced.0 introduced.1 c1)))

  unfoldable pub broadcast_each :
      NodeId → List NodeId → List ScheduledAction → MockCluster S V → MockCluster S V
  broadcast_each n all_nodes [] c = c
  broadcast_each n all_nodes (action ∷ due) c =
      broadcast_each n all_nodes due (broadcasts serialize n (sync action.message) all_nodes c)

  -- One node in the phase of the timers.
  abbrev pub timers_of : NodeId → MockNode S V → MockCluster S V → MockCluster S V
  timers_of n node c =
      let due = filter (is_due c.current_tick) node.scheduled in
      let remaining = filter (λ action. not (is_due c.current_tick action)) node.scheduled in
      broadcast_each n (all_node_ids c) due (with_node n (record node { scheduled = remaining }) c)

  unfoldable pub timers_each : List NodeId → MockCluster S V → Option (MockCluster S V)
  unfolding broadcast_each HashMap.get HashMap.insert
  timers_each [] c = some c
  timers_each (n ∷ ids) c =
      and_then (HashMap.get n c.nodes) (λ node. timers_each ids (timers_of n node c))

  -- The broadcast of a feed that was flushed.
  abbrev pub broadcast_feed : NodeId → Option BatchedChangeFeed → MockCluster S V → MockCluster S V
  broadcast_feed n none c = c
  broadcast_feed n (some batch) c = broadcasts serialize n (feed batch) (all_node_ids c) c

  -- One node in the phase of the change feeds.
  abbrev pub feeds_of : NodeId → MockNode S V → MockCluster S V → MockCluster S V
  feeds_of n node c =
      let counter = inc_u64 node.feed_flush_counter in
      let flushed = flush_change_feed node.engine in
      if ltb 0 (pending_count node.engine.change_feed)
      then (if leb node.feed_flush_interval counter
          then broadcast_feed n flushed.1
              (with_node n (record node { engine = flushed.0; feed_flush_counter = 0 }) c)
          else with_node n (record node { feed_flush_counter = counter }) c)
      else with_node n (record node { feed_flush_counter = 0 }) c

  unfoldable pub feeds_each : List NodeId → MockCluster S V → Option (MockCluster S V)
  unfolding flush_change_feed HashMap.get HashMap.insert
  feeds_each [] c = some c
  feeds_each (n ∷ ids) c =
      and_then (HashMap.get n c.nodes) (λ node. feeds_each ids (feeds_of n node c))

  -- A mutation on a node that is in the cluster.
  unfoldable pub mutate :
      NodeId → (S → S) → (S → V) → SyncUrgency → MockCluster S V → Option (MockCluster S V)
  unfolding Outbound.mutate route_actions HashMap.get HashMap.insert
  mutate n mutate_fn project_fn urgency c = and_then (HashMap.get n c.nodes) (λ node.
      let r = Outbound.mutate (reading c.clock) mutate_fn project_fn urgency node.engine in
      some (route_actions serialize n r.1.actions (with_node n (record node { engine = r.0 }) c)))

  module _ (deserialize : Bytes → Result String WireMessage) where
    -- The delivery, and the actions of the engines that received something.
    unfoldable pub deliver_phase : MockCluster S V → Option (MockCluster S V)
    unfolding deliver_due receive_each route_all
    deliver_phase c =
        let delivery = deliver_due deserialize c.transport in
        let corrupted = (c.corrupted_count + length delivery.1.corrupted) % 2 ^ 64 in
        and_then (receive_each (reading c.clock) delivery.1.delivered c.nodes) (λ received. some (
          route_all serialize received.1
            (record c { nodes = received.0; transport = delivery.0; corrupted_count = corrupted })))

    unfoldable pub tick : MockCluster S V → Option (MockCluster S V)
    unfolding deliver_phase timers_each feeds_each advance_all
    tick c = and_then (deliver_phase c) (λ c1.
        let node_ids = all_node_ids c1 in
        and_then (timers_each node_ids c1)
          (λ c2. and_then (feeds_each node_ids c2) (λ c3. some (advance_all c3))))

    unfoldable pub tick_n : ℕ → MockCluster S V → Option (MockCluster S V)
    unfolding tick
    tick_n zero c = some c
    tick_n (suc n) c = and_then (tick c) (tick_n n)

    -- The loop of `settle_with_limit`, with `left` ticks before the assertion fails.
    unfoldable pub settle_from : ℕ → ℕ → MockCluster S V → Option (ℕ × MockCluster S V)
    unfolding tick is_settled
    settle_from zero ticks c = if is_settled c then some (ticks, c) else none
    settle_from (suc left) ticks c =
        if is_settled c then some (ticks, c) else and_then (tick c) (settle_from left (suc ticks))

    unfoldable pub settle_with_limit : ℕ → MockCluster S V → Option (ℕ × MockCluster S V)
    unfolding settle_from
    settle_with_limit max_ticks c = settle_from max_ticks 0 c

    unfoldable pub settle : MockCluster S V → Option (ℕ × MockCluster S V)
    unfolding settle_with_limit
    settle c = settle_with_limit 1000 c

-- ===== src/Integration/Cluster.antt =====
-- dstate-integration/src/cluster.rs: engines that share one test clock and one transport. An
-- operation returns `none` where the code panics.
use dstate.Base.{
  ℕ, zero, suc, ◌+◌, ◌/◌, ◌%◌, ◌^◌, Bool, true, false, ◌&&◌, none, some, List, [], ◌∷◌, ◌++◌,
  length, ltb, nat_eq, if◌then◌else◌,
}
use dstate.HashMap
use dstate.HashMap.{HashMap, keys}
use dstate.Types.Config.{Duration}
use dstate.Types.Envelope.{NodeId}
use dstate.Types.Message.{SyncMessage}
use dstate.ChangeFeed.{pending_count}
use dstate.Engine.State.{Engine, EngineAction}
use dstate.Engine.Cluster.{on_node_left}
use dstate.TestSupport.Clock.{TestClock, as_millis}
use dstate.Integration.Transport
use dstate.Integration.Transport.{
  MockTransport, DeliveredMessage, send, broadcast, deliver_due, advance_tick, drop_in_flight_for,
  in_flight_count,
}

pub record ScheduledAction : Type 0 where
  pub message : SyncMessage
  pub deliver_at_tick : ℕ

pub record MockNode (S V : Type 0) : Type 0 where
  pub engine : Engine S V
  pub scheduled : List ScheduledAction
  pub feed_flush_counter : ℕ
  pub feed_flush_interval : ℕ

-- The engines read the one `clock` that they share with the cluster.
pub record MockCluster (S V : Type 0) : Type 1 where
  pub nodes : HashMap (MockNode S V)
  pub transport : MockTransport
  pub clock : TestClock
  pub tick_duration : Duration
  pub current_tick : ℕ
  pub corrupted_count : ℕ

-- The actions of the engines of several nodes, in order.
abbrev pub NodeActions : Type 0
NodeActions = List (NodeId × List EngineAction)

-- `if !actions.is_empty()` the actions are kept.
abbrev pub keep_actions : NodeId → List EngineAction → NodeActions → NodeActions
keep_actions n [] all = all
keep_actions n (action ∷ actions) all = (n, action ∷ actions) ∷ all

-- `a.div_ceil(b)`
abbrev pub div_ceil : ℕ → ℕ → ℕ
div_ceil a b = if ltb 0 (a % b) then a / b + 1 else a / b

-- `max(1)`
abbrev pub at_least_one : ℕ → ℕ
at_least_one zero = 1
at_least_one (suc n) = suc n

-- `Duration::as_millis` as a `u64`, and a tick in these. The code divides by a tick: a tick of 0, which
-- only a duration of 2^64 milliseconds gives, is outside the model.
abbrev pub millis_u64 : Duration → ℕ
millis_u64 d = as_millis d % 2 ^ 64

abbrev pub tick_ms : Duration → ℕ
tick_ms tick_duration = at_least_one (as_millis tick_duration) % 2 ^ 64

-- The ticks that a delay takes.
unfoldable pub delay_ticks : Duration → Duration → ℕ
delay_ticks tick_duration delay =
    let delay_ms = millis_u64 delay in
    if nat_eq delay_ms 0 then 0 else at_least_one (div_ceil delay_ms (tick_ms tick_duration))

-- The ticks between two flushes of the change feed.
unfoldable pub feed_interval : Duration → Duration → ℕ
feed_interval tick_duration batch_interval =
    at_least_one (div_ceil (millis_u64 batch_interval) (tick_ms tick_duration))

module _ {S V : Type 0} where
  unfoldable pub new : TestClock → Duration → ℕ → MockCluster S V
  unfolding Transport.new
  new clock tick_duration rng_seed = record {
    nodes = [];
    transport = Transport.new rng_seed;
    clock = clock;
    tick_duration = tick_duration;
    current_tick = 0;
    corrupted_count = 0;
  }

  abbrev pub all_node_ids : MockCluster S V → List NodeId
  all_node_ids c = keys c.nodes

  abbrev pub node_count : MockCluster S V → ℕ
  node_count c = length c.nodes

  abbrev pub with_node : NodeId → MockNode S V → MockCluster S V → MockCluster S V
  with_node n node c = record c { nodes = HashMap.insert n node c.nodes }

  -- `nodes.get_mut(from)`, and the push onto its schedule.
  unfoldable pub schedule : NodeId → ScheduledAction → MockCluster S V → MockCluster S V
  schedule from action c = elim (HashMap.get from c.nodes) [
    | none ↦ c
    | some node ↦ with_node from (record node { scheduled = node.scheduled ++ action ∷ [] }) c
  ]

  -- Whether anything of one node keeps the cluster from being settled.
  abbrev pub node_settled : MockNode S V → Bool
  node_settled node =
      nat_eq (length node.scheduled) 0 && nat_eq (pending_count node.engine.change_feed) 0

  abbrev pub nodes_settled : HashMap (MockNode S V) → Bool
  nodes_settled [] = true
  nodes_settled ((n, node) ∷ nodes) = node_settled node && nodes_settled nodes

  unfoldable pub is_settled : MockCluster S V → Bool
  is_settled c = if ltb 0 (in_flight_count c.transport) then false else nodes_settled c.nodes

  -- The loop of `remove_node` over the nodes that stay.
  unfoldable pub all_left : NodeId → HashMap (MockNode S V) → HashMap (MockNode S V)
  unfolding on_node_left
  all_left n [] = []
  all_left n ((m, node) ∷ nodes) =
      (m, record node { engine = on_node_left n node.engine }) ∷ all_left n nodes

  unfoldable pub remove_node : NodeId → MockCluster S V → MockCluster S V
  unfolding all_left HashMap.remove
  remove_node n c = record c { nodes = all_left n (HashMap.remove n c.nodes) }

  unfoldable pub remove_node_hard : NodeId → MockCluster S V → MockCluster S V
  unfolding all_left HashMap.remove drop_in_flight_for
  remove_node_hard n c = record c {
    nodes = all_left n (HashMap.remove n c.nodes);
    transport = drop_in_flight_for n c.transport;
  }

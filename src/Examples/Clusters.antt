-- ===== src/Examples/Clusters.antt =====
-- A cluster of the nodes "a" and "b", and the theorems on clusters applied.
use dstate.Base.{ℕ, ◌≤◌, ◌≡◌, refl, ◌∙◌, ap, sym, pos, false, true, ◌⊎◌, Option, none, some}
use dstate.HashMap
use dstate.BTreeMap.{insert_sorted}
use dstate.Engine.State
use dstate.Engine.Keeps.{WellFormed}
use dstate.Engine.Valid.{new-IsValid}
use dstate.Shard.State.{new_state_object}
use dstate.TestSupport.Clock.{with_base_unix_ms}
use dstate.Integration.Transport.{deliver_due}
use dstate.Integration.Cluster as Cluster
use dstate.Integration.Cluster.{MockCluster, is_settled, remove_node_hard}
use dstate.Integration.Routing.{announce_each, introduce_each, route_all}
use dstate.Integration.Tick.{add_node, tick, tick_n, settle_with_limit}
use dstate.Integration.Sound.{AllEntries, NodeIsSound}
use dstate.Integration.Returns.{Returns}
use dstate.Integration.Changes.{add_node-Sound}
use dstate.Integration.Reachable.{Reachable, created, added, Reachable-IsSound, Reachable-tick}
use dstate.Integration.Settle.{Waits, settle_with_limit-decides}
use dstate.Integration.Purge.{
  NoneInFlight, NoneDelivered, NoneCorrupted, remove_node_hard-NoneDelivered,
}
use dstate.Examples.Nodes.{clock_1, engine_a, lone_b, engine_a-WellFormed}
use dstate.Examples.Network.{encode, decode}

abbrev or_else : {A : Type 1} → Option A → A → A
or_else none d = d
or_else (some a) d = a

or_else-returned :
    {A : Type 1} {Q : A → Type 0} (o : Option A) (d : A) → Returns Q o → o ≡ some (or_else o d)
or_else-returned o d r = r.returns ∙ ap (λ o. some (or_else o d)) (sym r.returns)

abbrev no_nodes : MockCluster ℕ ℕ
no_nodes = Cluster.new (with_base_unix_ms 5 (pos 1000)) 100000000 42

abbrev one_node : MockCluster ℕ ℕ
one_node = or_else (add_node encode engine_a 0 no_nodes) no_nodes

abbrev two_nodes : MockCluster ℕ ℕ
two_nodes = or_else (add_node encode lone_b 0 one_node) one_node

no_nodes-Reachable : Reachable encode decode no_nodes
no_nodes-Reachable = created (with_base_unix_ms 5 (pos 1000)) 100000000 42

a_is_new : HashMap.contains_key engine_a.shard.node_id no_nodes.nodes ≡ false
unfolding HashMap.contains_key HashMap.get Cluster.new State.new
a_is_new = refl

one_node-Reachable : Reachable encode decode one_node
one_node-Reachable = added engine_a 0 no_nodes one_node no_nodes-Reachable engine_a-WellFormed (
    or_else-returned _ no_nodes (
      add_node-Sound encode engine_a 0 no_nodes
        (Reachable-IsSound encode decode no_nodes no_nodes-Reachable) engine_a-WellFormed a_is_new))

lone_b-WellFormed : WellFormed lone_b
unfolding State.new new_state_object
lone_b-WellFormed = new-IsValid _ "b" _ _ clock_1

b_is_new : HashMap.contains_key lone_b.shard.node_id one_node.nodes ≡ false
unfolding HashMap.contains_key HashMap.get Cluster.new State.new add_node announce_each
    introduce_each route_all insert_sorted
b_is_new = refl

two_nodes-Reachable : Reachable encode decode two_nodes
two_nodes-Reachable = added lone_b 0 one_node two_nodes one_node-Reachable lone_b-WellFormed (
    or_else-returned _ one_node (
      add_node-Sound encode lone_b 0 one_node
        (Reachable-IsSound encode decode one_node one_node-Reachable) lone_b-WellFormed b_is_new))

Reachable-tick_example :
    (c' : MockCluster ℕ ℕ) × (tick encode decode two_nodes ≡ some c')
    × (c'.transport.current_tick ≡ c'.current_tick)
    × AllEntries NodeIsSound c'.nodes
Reachable-tick_example = Reachable-tick encode decode two_nodes two_nodes-Reachable

settle_with_limit-decides_example :
    ((n : ℕ) × (final : MockCluster ℕ ℕ) × (settle_with_limit encode decode 10 two_nodes
        ≡ some (n, final))
      × (n ≤ 10)
      × Waits encode decode n two_nodes
      × (tick_n encode decode n two_nodes ≡ some final)
      × (is_settled final ≡ true))
    ⊎ ((final : MockCluster ℕ ℕ) × (settle_with_limit encode decode 10 two_nodes ≡ none)
        × Waits encode decode 10 two_nodes
        × (tick_n encode decode 10 two_nodes ≡ some final)
        × (is_settled final ≡ false))
settle_with_limit-decides_example =
    settle_with_limit-decides encode decode 10 two_nodes two_nodes-Reachable

remove_node_hard-NoneDelivered_example :
    (let c' = remove_node_hard "a" two_nodes in
      let r = deliver_due decode c'.transport in
      (HashMap.get "a" c'.nodes ≡ none)
      × NoneInFlight "a" c'.transport.in_flight
      × NoneDelivered "a" r.1.delivered
      × NoneCorrupted "a" r.1.corrupted
      × NoneInFlight "a" r.0.in_flight)
remove_node_hard-NoneDelivered_example = remove_node_hard-NoneDelivered decode "a" two_nodes

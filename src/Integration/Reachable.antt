-- ===== src/Integration/Reachable.antt =====
-- The clusters that can be built, and that none of their ticks panics.
use dstate.Base.{
  ℕ, ◌≡◌, refl, sym, ap, subst, ◌∙◌, String, true, false, false≢true, Bool-cases, Option-cases, inl,
  inr, Option, some, List, is_some,
}
use dstate.HashMap
use dstate.HashMap.{HashMap, keys, contains_key}
use dstate.Types.Config.{SyncUrgency}
use dstate.Types.Envelope.{NodeId}
use dstate.Types.Errors.{Result}
use dstate.Types.Message.{Bytes, WireMessage}
use dstate.Engine.State.{Engine}
use dstate.Engine.Keeps.{WellFormed}
use dstate.Integration.Transport.{DeliveredMessage, deliver_due, advance_tick, drop_in_flight_for}
use dstate.Integration.Cluster.{
  ScheduledAction, MockNode, MockCluster, NodeActions, with_node, all_node_ids, remove_node,
  remove_node_hard, all_left, feed_interval, at_least_one,
}
use dstate.Integration.Tick.{add_node, mutate, tick}
use dstate.Integration.Sound.{AllEntries, NodeIsSound, IsSound}
use dstate.Integration.Returns.{Returns}
use dstate.Integration.Phases.{tick-Sound}
use dstate.Integration.Cluster as Cluster
use dstate.Integration.Interceptor.{NetworkInterceptor}
use dstate.TestSupport.Clock.{TestClock}
use dstate.Types.Config.{Duration}
use mathlib.Core.Option.{some-injective}
use dstate.Integration.Changes.{
  add_node-Sound, mutate-Sound, remove_node-IsSound, remove_node_hard-IsSound,
}

-- What a computation returned satisfies what it guarantees.
returned : {A : Type 1} (Q : A → Type 0) (o : Option A) (a : A) → Returns Q o → o ≡ some a → Q a
returned Q o a r e =
    let same : r.value ≡ a = some-injective _ _ (sym r.returns ∙ e) in subst Q same r.holds

module _ {S V : Type 0} (serialize : WireMessage → Bytes) where
  added-fresh :
      (e : Engine S V) (v : V) (c c' : MockCluster S V)
      → add_node serialize e v c ≡ some c'
      → contains_key e.shard.node_id c.nodes ≡ false
  unfolding add_node
  added-fresh e v c c' h = elim (Bool-cases (contains_key e.shard.node_id c.nodes)) [
    | inr fresh ↦ fresh
    | inl there ↦ absurd (false≢true (ap is_some (rw there at h)))
  ]

  mutated-there :
      (n : NodeId) (f : S → S) (p : S → V) (urgency : SyncUrgency) (c c' : MockCluster S V)
      → mutate serialize n f p urgency c ≡ some c'
      → is_some (HashMap.get n c.nodes) ≡ true
  unfolding mutate
  mutated-there n f p urgency c c' h = elim (Option-cases (HashMap.get n c.nodes)) [
    | inl missing ↦ absurd (false≢true (ap is_some (rw missing at h)))
    | inr there ↦ rw there.1 refl
  ]

module _ {S V : Type 0} (serialize : WireMessage → Bytes)
    (deserialize : Bytes → Result String WireMessage) where
  -- The clusters that the operations build, in any order, with any interceptors at any time.
  pub data Reachable : MockCluster S V → Type 1 where
    created :
        (clock : TestClock) (tick_duration : Duration) (rng_seed : ℕ)
        → Reachable (Cluster.new clock tick_duration rng_seed)
    added :
        (e : Engine S V) (v : V) (c c' : MockCluster S V)
        → Reachable c
        → WellFormed e
        → add_node serialize e v c ≡ some c'
        → Reachable c'
    removed : (n : NodeId) (c : MockCluster S V) → Reachable c → Reachable (remove_node n c)
    removed_hard :
        (n : NodeId) (c : MockCluster S V) → Reachable c → Reachable (remove_node_hard n c)
    mutated :
        (n : NodeId) (f : S → S) (p : S → V) (urgency : SyncUrgency) (c c' : MockCluster S V)
        → Reachable c
        → mutate serialize n f p urgency c ≡ some c'
        → Reachable c'
    intercepted :
        (l : List NetworkInterceptor) (c : MockCluster S V)
        → Reachable c
        → Reachable (record c { transport = record (c.transport) { interceptors = l } })
    ticked :
        (c c' : MockCluster S V)
        → Reachable c
        → tick serialize deserialize c ≡ some c'
        → Reachable c'

  -- Every cluster that the operations build is sound.
  pub Reachable-IsSound : (c : MockCluster S V) → Reachable c → IsSound c
  unfolding Cluster.new dstate.Integration.Transport.new
  Reachable-IsSound c (created clock d seed) = record { nodes = tt; ticks = refl }
  Reachable-IsSound c (added e v b c' r valid h) =
      returned IsSound _ c'
        (add_node-Sound serialize e v b (Reachable-IsSound b r) valid
          (added-fresh serialize e v b c' h))
        h
  Reachable-IsSound c (removed n b r) = remove_node-IsSound n b (Reachable-IsSound b r)
  Reachable-IsSound c (removed_hard n b r) = remove_node_hard-IsSound n b (Reachable-IsSound b r)
  Reachable-IsSound c (mutated n f p urgency b c' r h) =
      returned IsSound _ c'
        (mutate-Sound serialize n f p urgency b (Reachable-IsSound b r)
          (mutated-there serialize n f p urgency b c' h))
        h
  Reachable-IsSound c (intercepted l b r) =
      let s = Reachable-IsSound b r in record { nodes = s.nodes; ticks = s.ticks }
  Reachable-IsSound c (ticked b c' r h) =
      returned IsSound _ c' (tick-Sound serialize deserialize b (Reachable-IsSound b r)) h

  -- In every cluster that its operations build, from well-formed engines, in any order, with any
  -- interceptors put in at any time, a tick does not panic; in the cluster that it leaves the transport
  -- counts the same ticks as the cluster, and every node has a well-formed engine of its own id and a
  -- feed counter below its interval.
  pub Reachable-tick :
      (c : MockCluster S V)
      → Reachable c
      → (c' : MockCluster S V) × (tick serialize deserialize c ≡ some c')
        × (c'.transport.current_tick ≡ c'.current_tick)
        × AllEntries NodeIsSound c'.nodes
  Reachable-tick c r =
      let t = tick-Sound serialize deserialize c (Reachable-IsSound c r) in
      (t.value, t.returns, t.holds.ticks, t.holds.nodes)

  -- In every cluster that its operations build, a mutation of a node that is in the cluster does not
  -- panic, and a tick after it does not.
  pub Reachable-mutate :
      (n : NodeId) (f : S → S) (p : S → V) (urgency : SyncUrgency) (c : MockCluster S V)
      → Reachable c
      → is_some (HashMap.get n c.nodes) ≡ true
      → (c' c'' : MockCluster S V) × (mutate serialize n f p urgency c ≡ some c')
        × (tick serialize deserialize c' ≡ some c'')
  Reachable-mutate n f p urgency c r there =
      let m = mutate-Sound serialize n f p urgency c (Reachable-IsSound c r) there in
      let t = Reachable-tick m.value (mutated n f p urgency c m.value r m.returns) in
      (m.value, t.0, m.returns, t.1)

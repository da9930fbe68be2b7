-- ===== src/Integration/Phases.antt =====
-- No phase of a tick panics on a sound cluster, and each leaves it sound.
use dstate.Base.{
  refl, ap, inc_u64, String, Bool-cases, inl, inr, Option, none, some, List, [], ◌∷◌, arith, leb,
  ltb,
}
use dstate.Types.Envelope.{NodeId}
use dstate.Types.Errors.{Result}
use dstate.Types.Message.{Bytes, WireMessage, BatchedChangeFeed}
use dstate.ChangeFeed.{pending_count}
use dstate.Engine.Outbound.{flush_change_feed}
use dstate.TestSupport.Clock.{reading}
use dstate.Integration.Transport.{deliver_due, advance_tick}
use dstate.Integration.Cluster.{ScheduledAction, MockNode, MockCluster, all_node_ids}
use dstate.Integration.Tick.{
  broadcast_each, timers_of, timers_each, broadcast_feed, feeds_of, feeds_each, advance_all,
  deliver_phase, tick,
}
use dstate.Integration.Sound.{
  broadcasts-IsSound, keys-AllPresent, NodeIsSound, IsSound, broadcasts-IsSound, route_all-IsSound,
}
use dstate.Integration.Returns.{
  Returns, then-Returns, receive_each-Sound, Has, with_node-Has, unwrap-Sound,
}

module _ {S V : Type 0} (serialize : WireMessage → Bytes) where
  broadcast_each-Has :
      (ids : List NodeId) (n : NodeId) (all_nodes : List NodeId) (due : List ScheduledAction)
      (c : MockCluster S V)
      → Has ids c
      → Has ids (broadcast_each serialize n all_nodes due c)
  unfolding broadcast_each
  broadcast_each-Has ids n all_nodes [] c h = h
  broadcast_each-Has ids n all_nodes (action ∷ due) c h =
      broadcast_each-Has ids n all_nodes due _
        (broadcasts-IsSound serialize n _ all_nodes c h.0, h.1)

  timers_of-Has :
      (ids : List NodeId) (n : NodeId) (node : MockNode S V) (c : MockCluster S V)
      → NodeIsSound n node
      → Has ids c
      → Has ids (timers_of serialize n node c)
  timers_of-Has ids n node c q h = broadcast_each-Has ids n (all_node_ids c) _ _ (
      with_node-Has ids n _ c
        (record { well_formed = q.well_formed; node_id = q.node_id; counter = q.counter }) h)

  -- `all` are nodes that later phases ask for.
  timers_each-Has :
      (all ids : List NodeId) (c : MockCluster S V)
      → Has ids c
      → Has all c
      → Returns (Has all) (timers_each serialize ids c)
  unfolding timers_each
  timers_each-Has all [] c h a = record { value = c; returns = refl; holds = a }
  timers_each-Has all (n ∷ ids) c h a = unwrap-Sound (Has all) n ids c _ h (λ node q.
      timers_each-Has all ids (timers_of serialize n node c)
        (timers_of-Has ids n node c q (h.0, h.1.1)) (timers_of-Has all n node c q a))

  broadcast_feed-Has :
      (ids : List NodeId) (n : NodeId) (o : Option BatchedChangeFeed) (c : MockCluster S V)
      → Has ids c
      → Has ids (broadcast_feed serialize n o c)
  broadcast_feed-Has ids n none c h = h
  broadcast_feed-Has ids n (some batch) c h =
      (broadcasts-IsSound serialize n _ (all_node_ids c) c h.0, h.1)

  feeds_of-Has :
      (ids : List NodeId) (n : NodeId) (node : MockNode S V) (c : MockCluster S V)
      → NodeIsSound n node
      → Has ids c
      → Has ids (feeds_of serialize n node c)
  unfolding flush_change_feed
  feeds_of-Has ids n node c q h =
      elim (Bool-cases (ltb 0 (pending_count node.engine.change_feed))) [
        | inr nothing ↦ rw nothing (
            with_node-Has ids n (record node { feed_flush_counter = 0 }) c
              (record {
                well_formed = q.well_formed;
                node_id = q.node_id;
                counter = omega (arith, q.counter);
              })
              h)
        | inl something ↦
            elim (Bool-cases (leb node.feed_flush_interval (inc_u64 node.feed_flush_counter))) [
              | inl due ↦
                  rw (something, due)
                    (broadcast_feed-Has ids n (flush_change_feed node.engine).1 _ (
                      with_node-Has ids n _ c
                        (record {
                          well_formed = q.well_formed;
                          node_id = q.node_id;
                          counter = omega (arith, q.counter);
                        })
                        h))
              | inr waits ↦
                  rw (something, waits)
                    (with_node-Has ids n
                      (record node { feed_flush_counter = inc_u64 node.feed_flush_counter }) c
                      (record {
                        well_formed = q.well_formed;
                        node_id = q.node_id;
                        counter = ground (arith, waits);
                      })
                      h)
            ]
      ]

  feeds_each-Sound :
      (ids : List NodeId) (c : MockCluster S V)
      → Has ids c
      → Returns IsSound (feeds_each serialize ids c)
  unfolding feeds_each
  feeds_each-Sound [] c h = record { value = c; returns = refl; holds = h.0 }
  feeds_each-Sound (n ∷ ids) c h = unwrap-Sound IsSound n ids c _ h (λ node q.
      feeds_each-Sound ids (feeds_of serialize n node c) (feeds_of-Has ids n node c q (h.0, h.1.1)))

  module _ (deserialize : Bytes → Result String WireMessage) where
    deliver_phase-Sound :
        (c : MockCluster S V) → IsSound c → Returns IsSound (deliver_phase serialize deserialize c)
    unfolding deliver_phase deliver_due
    deliver_phase-Sound c h =
        let delivery = deliver_due deserialize c.transport in
        then-Returns _ _ (receive_each-Sound (reading c.clock) delivery.1.delivered c.nodes h.nodes)
          (λ r sound. record {
            value = _;
            returns = refl;
            holds = route_all-IsSound serialize r.1 _ (record { nodes = sound; ticks = h.ticks });
          })

    pub tick-Sound :
        (c : MockCluster S V) → IsSound c → Returns IsSound (tick serialize deserialize c)
    unfolding tick advance_all advance_tick
    tick-Sound c h = then-Returns _ _ (deliver_phase-Sound c h) (λ c1 h1.
        let ids = all_node_ids c1 in
        let there : Has ids c1 = (h1, keys-AllPresent c1.nodes) in
        then-Returns _ _ (timers_each-Has ids ids c1 there there) (λ c2 h2.
          then-Returns _ _ (feeds_each-Sound ids c2 h2) (λ c3 h3. record {
            value = advance_all c3;
            returns = refl;
            holds = record { nodes = h3.nodes; ticks = ap inc_u64 h3.ticks };
          })))

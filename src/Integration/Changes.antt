-- ===== src/Integration/Changes.antt =====
-- That additions, removals and mutations keep a cluster sound.
use dstate.Base.{
  ℕ, zero, suc, ◌<◌, ◌≡◌, refl, sym, ap, subst, ◌∙◌, true, false, false≢true, Option, none, some,
  List, [], ◌∷◌, arith, is_some,
}
use dstate.HashMap
use dstate.HashMap.{HashMap, keys, contains_key}
use dstate.BTreeMap.{insert_sorted}
use dstate.Types.Config.{SyncUrgency}
use dstate.Types.Envelope.{NodeId, Clock}
use dstate.Types.Message.{Bytes, WireMessage}
use dstate.Engine.State.{Engine}
use dstate.Engine.Outbound as Outbound
use dstate.Engine.Outbound.{flush_change_feed}
use dstate.Engine.Keeps.{WellFormed}
use dstate.Engine.Events.{step, joins}
use dstate.Engine.Invariant.{step-Keeps, mutate-Keeps, on_node_left-WellFormed, on_node_left-node}
use dstate.TestSupport.Clock.{reading}
use dstate.Integration.Transport.{drop_in_flight_for}
use dstate.Integration.Cluster.{
  MockNode, MockCluster, NodeActions, all_node_ids, remove_node, remove_node_hard, all_left,
  feed_interval, at_least_one,
}
use dstate.Integration.Routing.{
  kept, then_nodes, announce_at, announce_each, introduced, then_engine, introduce_each,
}
use dstate.Integration.Tick.{admit, add_node, mutate}
use dstate.Integration.Sound.{
  AllEntries, remove-AllEntries, get-AllEntries, AllPresent, keys-AllPresent, NodeIsSound, IsSound,
  with_node-IsSound, route_actions-IsSound, route_all-IsSound,
}
use dstate.Integration.Returns.{Returns, then-Returns, AllSound, called-Sound, unwrap-Sound}
use dstate.Types.Config.{Duration}
use Prim.Native.Nat.{Ordering}
use Prim.Native.String.{compare}
use text.Mathlib.TextEquality.{path_by_compare}

-- An insertion in the order of the keys keeps what holds of the entries.
insert_sorted-AllEntries :
    {W : Type 0} (Q : NodeId → W → Type 0) (n : NodeId) (v : W) (m : HashMap W)
    → Q n v
    → AllEntries Q m
    → AllEntries Q (insert_sorted n v m)
unfolding insert_sorted
insert_sorted-AllEntries Q n v [] q h = (q, tt)
insert_sorted-AllEntries Q n v ((k, w) ∷ m) q h =
    elim (compare n k)
        as (λ o.
          compare n k ≡ o
          → AllEntries Q (elim o [
            | Ordering.lt ↦ (n, v) ∷ (k, w) ∷ m
            | Ordering.eq ↦ (k, v) ∷ m
            | Ordering.gt ↦ (k, w) ∷ insert_sorted n v m
          ])) [
            | Ordering.lt ↦ λ e. (q, h)
            | Ordering.eq ↦ λ e. (subst (λ j. Q j v) (path_by_compare n k e) q, h.1)
            | Ordering.gt ↦ λ e. (h.0, insert_sorted-AllEntries Q n v m q h.1)
          ]
      refl

at_least_one-positive : (n : ℕ) → 0 < at_least_one n
at_least_one-positive zero = omega arith
at_least_one-positive (suc n) = omega arith

-- A feed waits for at least one tick.
interval-positive :
    (tick_duration batch_interval : Duration) → 0 < feed_interval tick_duration batch_interval
unfolding feed_interval
interval-positive tick_duration batch_interval = at_least_one-positive _

module _ {S V : Type 0} where
  announce_each-Sound :
      (clock : Clock) (new_id : NodeId) (v : V) (ids : List NodeId) (nodes : HashMap (MockNode S V))
      → AllSound nodes
      → AllPresent ids nodes
      → Returns (λ r. AllSound r.0) (announce_each clock new_id v ids nodes)
  unfolding announce_each step
  announce_each-Sound clock new_id v [] nodes h there = record {
    value = _;
    returns = refl;
    holds = h;
  }
  announce_each-Sound clock new_id v (n ∷ ids) nodes h there =
      let first = announced_at (HashMap.get n nodes) refl in
      let rest = announce_each-Sound clock new_id v ids first.value.0 first.holds.0 first.holds.1 in
      record {
        value = _;
        returns =
            ap (then_nodes n (announce_each clock new_id v ids)) first.returns
            ∙ ap (kept n first.value.1) rest.returns;
        holds = rest.holds;
      }
    where
      announced_at :
          (o : Option (MockNode S V))
          → HashMap.get n nodes ≡ o
          → Returns (λ r. AllSound r.0 × AllPresent ids r.0) (announce_at clock new_id v n nodes o)
      announced_at none e = absurd (false≢true (ap is_some (sym e) ∙ there.0))
      announced_at (some node) e =
          let q = get-AllEntries NodeIsSound n node nodes e h in
          called-Sound n node nodes _ ids q
            (step-Keeps {DC = Unit} {VD = Unit} (joins clock new_id v) node.engine q.well_formed) h
            there.1

  introduce_each-Keeps :
      (clock : Clock) (own : NodeId) (v : V) (ids : List NodeId) (e : Engine S V)
      → WellFormed e
      → Returns
          (λ r. WellFormed r.0 × (r.0.shard.node_id ≡ e.shard.node_id))
          (introduce_each clock own v ids e)
  unfolding introduce_each step
  introduce_each-Keeps clock own v [] e h = record { value = _; returns = refl; holds = (h, refl) }
  introduce_each-Keeps clock own v (n ∷ ids) e h =
      let k = step-Keeps {DC = Unit} {VD = Unit} (joins clock n v) e h in
      let rest = introduce_each-Keeps clock own v ids k.result.0 k.well_formed in
      record {
        value = _;
        returns =
            ap (then_engine own (introduce_each clock own v ids)) k.returns
            ∙ ap (λ o. introduced k.result.1 o own) rest.returns;
        holds = (rest.holds.0, rest.holds.1 ∙ k.same_node);
      }

  all_left-AllSound :
      (n : NodeId) (nodes : HashMap (MockNode S V)) → AllSound nodes → AllSound (all_left n nodes)
  unfolding all_left
  all_left-AllSound n [] h = tt
  all_left-AllSound n ((m, node) ∷ nodes) h = (
    record {
      well_formed = on_node_left-WellFormed n node.engine h.0.well_formed;
      node_id = on_node_left-node n node.engine ∙ h.0.node_id;
      counter = h.0.counter;
    },
    all_left-AllSound n nodes h.1,
  )

  pub remove_node-IsSound :
      (n : NodeId) (c : MockCluster S V) → IsSound c → IsSound (remove_node n c)
  unfolding remove_node
  remove_node-IsSound n c h = record {
    nodes = all_left-AllSound n _ (remove-AllEntries NodeIsSound n c.nodes h.nodes);
    ticks = h.ticks;
  }

  pub remove_node_hard-IsSound :
      (n : NodeId) (c : MockCluster S V) → IsSound c → IsSound (remove_node_hard n c)
  unfolding remove_node_hard drop_in_flight_for
  remove_node_hard-IsSound n c h = record {
    nodes = all_left-AllSound n _ (remove-AllEntries NodeIsSound n c.nodes h.nodes);
    ticks = h.ticks;
  }

  module _ (serialize : WireMessage → Bytes) where
    pub mutate-Sound :
        (n : NodeId) (f : S → S) (p : S → V) (urgency : SyncUrgency) (c : MockCluster S V)
        → IsSound c
        → is_some (HashMap.get n c.nodes) ≡ true
        → Returns IsSound (mutate serialize n f p urgency c)
    unfolding mutate
    mutate-Sound n f p urgency c h there =
        unwrap-Sound IsSound n [] c _ (h, (there, tt))
          (λ node q.
            let r = Outbound.mutate (reading c.clock) f p urgency node.engine in
            let k = mutate-Keeps (reading c.clock) f p urgency node.engine q.well_formed in
            record {
              value = _;
              returns = refl;
              holds = route_actions-IsSound serialize n r.1.actions _ (
                  with_node-IsSound n (record node { engine = r.0 }) c
                    (record { well_formed = k.0; node_id = k.1 ∙ q.node_id; counter = q.counter })
                    h);
            })

    admit-IsSound :
        (n : NodeId) (interval : ℕ) (e : Engine S V) (actions : NodeActions) (c : MockCluster S V)
        → IsSound c
        → WellFormed e
        → e.shard.node_id ≡ n
        → 0 < interval
        → IsSound (admit serialize n interval e actions c)
    admit-IsSound n interval e actions c h valid own positive =
        route_all-IsSound serialize actions _ (record {
          nodes =
              insert_sorted-AllEntries NodeIsSound n _ c.nodes
                (record { well_formed = valid; node_id = own; counter = positive }) h.nodes;
          ticks = h.ticks;
        })

    -- An engine whose node is not in the cluster yet can be added.
    pub add_node-Sound :
        (e : Engine S V) (v : V) (c : MockCluster S V)
        → IsSound c
        → WellFormed e
        → contains_key e.shard.node_id c.nodes ≡ false
        → Returns IsSound (add_node serialize e v c)
    unfolding add_node
    add_node-Sound e v c h valid fresh =
        let n = e.shard.node_id in
        let clock = reading c.clock in
        let ids = all_node_ids c in
        rw fresh (
          then-Returns _ _
            (announce_each-Sound clock n v ids c.nodes h.nodes (keys-AllPresent c.nodes))
            (λ announced sound.
              then-Returns _ _ (introduce_each-Keeps clock n v ids e valid) (λ introduced k.
                let c1 =
                  route_all-IsSound serialize announced.1 _
                    (record { nodes = sound; ticks = h.ticks }) in
                record {
                  value = _;
                  returns = refl;
                  holds = admit-IsSound n _ introduced.0 introduced.1 _ c1 k.0 k.1 (
                      interval-positive c.tick_duration
                        e.sync_logic.strategy.change_feed.batch_interval);
                })))

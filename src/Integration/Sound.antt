-- ===== src/Integration/Sound.antt =====
-- The invariant of a `MockCluster`, and that routing keeps it.
use dstate.Base.{
  ◌<◌, ◌≡◌, refl, ◌∙◌, Bool, true, false, Option, none, some, List, [], ◌∷◌, ◌++◌, arith, is_some,
  ◌==◌, eq_iff, eq_refl, if◌then◌else◌,
}
use dstate.HashMap
use dstate.HashMap.{HashMap, keys}
use dstate.HashMap.Laws.{get-insert}
use dstate.Types.Envelope.{NodeId}
use dstate.Types.Message.{Bytes, WireMessage}
use dstate.Engine.State.{EngineAction, broadcast_sync, send_sync, schedule_delayed}
use dstate.Engine.Keeps.{WellFormed}
use dstate.Integration.Interceptor.{NetworkInterceptor}
use dstate.Integration.Transport.{
  MockTransport, apply_interceptors, send_bytes, broadcast_bytes, send, broadcast,
}
use dstate.Integration.Cluster.{
  ScheduledAction, MockNode, MockCluster, NodeActions, with_node, schedule, all_node_ids,
}
use dstate.Integration.Routing.{broadcasts, route_action, route_each, route_actions, route_all}

-- Sending does not move the tick of the transport.
applied_tick :
    (from to : NodeId) (bytes : Bytes) (l : List NetworkInterceptor) (t : MockTransport)
    → t.interceptors ≡ l
    → (send_bytes from to bytes t).current_tick ≡ t.current_tick
unfolding send_bytes apply_interceptors
applied_tick from to bytes [] t h = rw h refl
applied_tick from to bytes (i ∷ l) t h = rw h refl

pub send_bytes-tick :
    (from to : NodeId) (bytes : Bytes) (t : MockTransport)
    → (send_bytes from to bytes t).current_tick ≡ t.current_tick
send_bytes-tick from to bytes t = applied_tick from to bytes t.interceptors t refl

broadcast_bytes-tick :
    (from : NodeId) (bytes : Bytes) (ids : List NodeId) (t : MockTransport)
    → (broadcast_bytes from bytes ids t).current_tick ≡ t.current_tick
unfolding broadcast_bytes
broadcast_bytes-tick from bytes [] t = refl
broadcast_bytes-tick from bytes (to ∷ ids) t =
    broadcast_bytes-tick from bytes ids _ ∙ one_tick (to == from)
  where
    one_tick :
        (b : Bool) → (if b then t else send_bytes from to bytes t).current_tick ≡ t.current_tick
    one_tick true = refl
    one_tick false = send_bytes-tick from to bytes t

module _ {V : Type 0} (Q : NodeId → V → Type 0) where
  -- Every entry of the map satisfies `Q`.
  abbrev pub AllEntries : HashMap V → Type 0
  AllEntries [] = Unit
  AllEntries ((n, v) ∷ m) = Q n v × AllEntries m

  pub insert-AllEntries :
      (n : NodeId) (v : V) (m : HashMap V)
      → Q n v
      → AllEntries m
      → AllEntries (HashMap.insert n v m)
  unfolding HashMap.insert
  insert-AllEntries n v [] q h = (q, tt)
  insert-AllEntries n v ((j, w) ∷ m) q h = ground (arith, eq_iff j n, insert-AllEntries n v m q h.1)

  pub remove-AllEntries :
      (n : NodeId) (m : HashMap V) → AllEntries m → AllEntries (HashMap.remove n m)
  unfolding HashMap.remove
  remove-AllEntries n [] h = tt
  remove-AllEntries n ((j, w) ∷ m) h = ground (arith, remove-AllEntries n m h.1)

  pub get-AllEntries :
      (n : NodeId) (v : V) (m : HashMap V) → HashMap.get n m ≡ some v → AllEntries m → Q n v
  unfolding HashMap.get
  get-AllEntries n v [] e h = ground arith
  get-AllEntries n v ((j, w) ∷ m) e h = ground (arith, eq_iff j n, get-AllEntries n v m)

module _ {V : Type 0} where
  -- The nodes of the list have an entry.
  abbrev pub AllPresent : List NodeId → HashMap V → Type 0
  AllPresent [] m = Unit
  AllPresent (n ∷ ids) m = (is_some (HashMap.get n m) ≡ true) × AllPresent ids m

  present_insert :
      (n k : NodeId) (v : V) (m : HashMap V)
      → is_some (HashMap.get n m) ≡ true
      → is_some (HashMap.get n (HashMap.insert k v m)) ≡ true
  present_insert n k v m h = ground (arith, get-insert k n v m)

  pub insert-AllPresent :
      (ids : List NodeId) (k : NodeId) (v : V) (m : HashMap V)
      → AllPresent ids m
      → AllPresent ids (HashMap.insert k v m)
  insert-AllPresent [] k v m h = tt
  insert-AllPresent (n ∷ ids) k v m h =
      (present_insert n k v m h.0, insert-AllPresent ids k v m h.1)

  present_after :
      (ids : List NodeId) (k : NodeId) (v : V) (m : HashMap V)
      → AllPresent ids m
      → AllPresent ids ((k, v) ∷ m)
  unfolding HashMap.get
  present_after [] k v m h = tt
  present_after (n ∷ ids) k v m h = (one_after n h.0, present_after ids k v m h.1)
    where
      one_after :
          (n : NodeId)
          → is_some (HashMap.get n m) ≡ true
          → is_some (HashMap.get n ((k, v) ∷ m)) ≡ true
      one_after n h = ground arith

  pub keys-AllPresent : (m : HashMap V) → AllPresent (keys m) m
  unfolding HashMap.get
  keys-AllPresent [] = tt
  keys-AllPresent ((k, v) ∷ m) = (here, present_after (keys m) k v m (keys-AllPresent m))
    where
      here : is_some (HashMap.get k ((k, v) ∷ m)) ≡ true
      here = rw (eq_refl k) refl

module _ {S V : Type 0} where
  -- A node of the cluster: its engine is well-formed and is the node of its key, and the counter of
  -- its feed is below its interval.
  pub record NodeIsSound (n : NodeId) (node : MockNode S V) : Type 0 where
    pub well_formed : WellFormed node.engine
    pub node_id : node.engine.shard.node_id ≡ n
    pub counter : node.feed_flush_counter < node.feed_flush_interval

  -- All nodes are sound, and the ticks of the cluster and of its transport are the same.
  pub record IsSound (c : MockCluster S V) : Type 0 where
    pub nodes : AllEntries NodeIsSound c.nodes
    pub ticks : c.transport.current_tick ≡ c.current_tick

  pub with_node-IsSound :
      (n : NodeId) (node : MockNode S V) (c : MockCluster S V)
      → NodeIsSound n node
      → IsSound c
      → IsSound (with_node n node c)
  with_node-IsSound n node c q h = record {
    nodes = insert-AllEntries NodeIsSound n node c.nodes q h.nodes;
    ticks = h.ticks;
  }

  schedule-IsSound :
      (n : NodeId) (action : ScheduledAction) (c : MockCluster S V) (o : Option (MockNode S V))
      → HashMap.get n c.nodes ≡ o
      → IsSound c
      → IsSound (schedule n action c)
  unfolding schedule
  schedule-IsSound n action c none e h = rw (e, schedule) h
  schedule-IsSound n action c (some node) e h =
      let q = get-AllEntries NodeIsSound n node c.nodes e h.nodes in
      rw (e, schedule)
        (with_node-IsSound n (record node { scheduled = node.scheduled ++ action ∷ [] }) c
          (record { well_formed = q.well_formed; node_id = q.node_id; counter = q.counter }) h)

  module _ (serialize : WireMessage → Bytes) where
    pub broadcasts-IsSound :
        (n : NodeId) (msg : WireMessage) (ids : List NodeId) (c : MockCluster S V)
        → IsSound c
        → IsSound (broadcasts serialize n msg ids c)
    unfolding broadcast
    broadcasts-IsSound n msg ids c h = record {
      nodes = h.nodes;
      ticks = broadcast_bytes-tick n (serialize msg) ids c.transport ∙ h.ticks;
    }

    route_action-IsSound :
        (n : NodeId) (ids : List NodeId) (action : EngineAction) (c : MockCluster S V)
        → IsSound c
        → IsSound (route_action serialize n ids action c)
    unfolding route_action send
    route_action-IsSound n ids (broadcast_sync msg) c h = broadcasts-IsSound n _ ids c h
    route_action-IsSound n ids (send_sync target msg) c h = record {
      nodes = h.nodes;
      ticks = send_bytes-tick n target _ c.transport ∙ h.ticks;
    }
    route_action-IsSound n ids (schedule_delayed d msg) c h = schedule-IsSound n _ c _ refl h

    route_each-IsSound :
        (n : NodeId) (ids : List NodeId) (actions : List EngineAction) (c : MockCluster S V)
        → IsSound c
        → IsSound (route_each serialize n ids actions c)
    unfolding route_each
    route_each-IsSound n ids [] c h = h
    route_each-IsSound n ids (action ∷ actions) c h =
        route_each-IsSound n ids actions _ (route_action-IsSound n ids action c h)

    pub route_actions-IsSound :
        (n : NodeId) (actions : List EngineAction) (c : MockCluster S V)
        → IsSound c
        → IsSound (route_actions serialize n actions c)
    unfolding route_actions
    route_actions-IsSound n actions c h = route_each-IsSound n (all_node_ids c) actions c h

    pub route_all-IsSound :
        (all : NodeActions) (c : MockCluster S V) → IsSound c → IsSound (route_all serialize all c)
    unfolding route_all
    route_all-IsSound [] c h = h
    route_all-IsSound ((n, actions) ∷ all) c h =
        route_all-IsSound all _ (route_actions-IsSound n actions c h)

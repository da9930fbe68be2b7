-- ===== src/Replica/Gone.antt =====
-- Runs of an engine after a node has left, in dstate/src/engine.rs.
use dstate.Base.{
  String, ◌≡◌, ◌≢◌, refl, ap, ◌∙◌, subst, false, Option, none, some, inl, inr, List, [], ◌∷◌, ◌==◌,
  eq_iff, eq_refl, arith, Bool-cases, Option-cases,
}
use dstate.HashMap
use dstate.HashMap.Laws.{get-insert, get-remove}
use dstate.Types.Envelope.{NodeId, Clock}
use dstate.Types.Generation.{Generation}
use dstate.Types.Message.{
  Bytes, full_snapshot, delta_update, request_snapshot, WireMessage, sync, feed,
}
use dstate.ViewMap.Each.{some_injective}
use dstate.Shard.State.{get_view}
use dstate.SyncLogic.{SyncAction, broadcast_snapshot, should_periodic_sync}
use dstate.ChangeFeed.{route_inbound_batch}
use dstate.Lifecycle
use dstate.Lifecycle.{LifecycleLogic, should_accept_from, is_departed}
use dstate.Engine.State.{Engine, EngineAction, own_view_value}
use dstate.Engine.Outbound.{
  sync_action_to_engine_actions_snapshot, sync_action_to_engine_actions_delta, mutate,
  mutate_with_delta, flush_change_feed, periodic_sync, broadcast_own,
}
use dstate.Engine.Inbound.{
  reply_own, handle_request_snapshot, handle_inbound_sync, handle_inbound_change_feed,
  handle_inbound, feed_entry, feed_entries,
}
use dstate.Engine.Cluster.{on_node_joined, on_node_left}
use dstate.Engine.Events.{
  Event, mutates, mutates_with_delta, receives, flushes, joins, leaves, syncs, step, run, onward,
}
use dstate.Engine.Shards.{handle_full_snapshot-shard, handle_delta_update-shard, feed_entry-shard}
use dstate.Engine.Keeps.{WellFormed}
use dstate.Engine.Valid.{departed-IsValid}
use dstate.Shard.Frame.{on_node_left-Frame}
use dstate.Engine.Invariant.{step-Keeps}

accepts-left :
    (n m : NodeId) (l : LifecycleLogic)
    → should_accept_from n l ≡ false
    → should_accept_from n (record { departed_nodes = HashMap.insert m tt l.departed_nodes })
      ≡ false
unfolding should_accept_from is_departed HashMap.contains_key
accepts-left n m l h = ground (arith, eq_iff m n, get-insert m n tt l.departed_nodes)

accepts_self :
    (n : NodeId) (l : LifecycleLogic)
    → should_accept_from n (record { departed_nodes = HashMap.insert n tt l.departed_nodes })
      ≡ false
unfolding should_accept_from is_departed HashMap.contains_key
accepts_self n l = rw (get-insert n n tt l.departed_nodes, eq_refl n)

accepts-joined :
    (n m : NodeId) (l : LifecycleLogic)
    → m ≢ n
    → should_accept_from n l ≡ false
    → should_accept_from n (record { departed_nodes = HashMap.remove m l.departed_nodes }) ≡ false
unfolding should_accept_from is_departed HashMap.contains_key
accepts-joined n m l other h = ground (arith, eq_iff m n, get-remove m n l.departed_nodes)

module _ {S V : Type 0} (n : NodeId) where
  abbrev Away : Engine S V → Type 0
  Away e = should_accept_from n e.lifecycle ≡ false

  abbrev StaysAway : Option (Engine S V × List EngineAction) → Type 0
  StaysAway none = Unit
  StaysAway (some q) = Away q.0

  reply_own-StaysAway :
      (m : NodeId) (o : Option V) (e : Engine S V) → Away e → StaysAway (reply_own m o e)
  reply_own-StaysAway m none e h = tt
  reply_own-StaysAway m (some v) e h = h

  broadcast_own-StaysAway : (o : Option V) (e : Engine S V) → Away e → StaysAway (broadcast_own o e)
  broadcast_own-StaysAway none e h = tt
  broadcast_own-StaysAway (some v) e h = h

  handle_request_snapshot-StaysAway :
      (name : String) (requester : NodeId) (e : Engine S V)
      → Away e
      → StaysAway (handle_request_snapshot name requester e)
  unfolding handle_request_snapshot
  handle_request_snapshot-StaysAway name requester e h = elim (Bool-cases (name == e.state_name)) [
    | inr other ↦ rw other h
    | inl own ↦ elim (Bool-cases (should_accept_from requester e.lifecycle)) [
      | inr departed ↦ rw (own, departed) h
      | inl present ↦ rw (own, present) (reply_own-StaysAway requester _ e h)
    ]
  ]

  feed_entries-Away :
      (entries : List (String × NodeId × Generation)) (e : Engine S V)
      → Away e
      → Away (feed_entries entries e)
  unfolding feed_entries
  feed_entries-Away [] e h = h
  feed_entries-Away (entry ∷ rest) e h =
      feed_entries-Away rest (feed_entry entry e) (feed_entry-shard Away (λ d r p. p) entry e h h)

  handle_inbound-StaysAway :
      (clock : Clock) (msg : WireMessage) (e : Engine S V)
      → Away e
      → StaysAway (handle_inbound clock msg e)
  unfolding handle_inbound handle_inbound_sync handle_inbound_change_feed
  handle_inbound-StaysAway clock (sync (full_snapshot name source g w bytes)) e h =
      handle_full_snapshot-shard Away (λ d r p. p) clock name source g w bytes e h h
        (λ v present read. h)
  handle_inbound-StaysAway clock (sync (delta_update name source g w bytes)) e h =
      handle_delta_update-shard Away (λ d r p. p) clock name source g w bytes e h h
        (λ applier current v a c made. h)
  handle_inbound-StaysAway clock (sync (request_snapshot name requester)) e h =
      handle_request_snapshot-StaysAway name requester e h
  handle_inbound-StaysAway clock (feed batch) e h =
      feed_entries-Away (route_inbound_batch batch e.shard.node_id) e h

  sent_snapshot-Away :
      (a : SyncAction) (view : V) (e : Engine S V)
      → Away e
      → Away (sync_action_to_engine_actions_snapshot a view e).0
  unfolding sync_action_to_engine_actions_snapshot
  sent_snapshot-Away broadcast_snapshot view e h = h
  sent_snapshot-Away _ view e h = h

  sent_delta-Away :
      {VD : Type 0} (a : SyncAction) (view : V) (d : VD) (f : VD → Bytes) (e : Engine S V)
      → Away e
      → Away (sync_action_to_engine_actions_delta a view d f e).0
  unfolding sync_action_to_engine_actions_delta
  sent_delta-Away broadcast_snapshot view d f e h = h
  sent_delta-Away _ view d f e h = h

  periodic_sync-StaysAway : (e : Engine S V) → Away e → StaysAway (periodic_sync e)
  unfolding periodic_sync
  periodic_sync-StaysAway e h = elim (Bool-cases (should_periodic_sync e.sync_logic)) [
    | inl on ↦ rw on (broadcast_own-StaysAway (own_view_value e) e h)
    | inr off ↦ rw off h
  ]

  -- The call is not a join of the node.
  abbrev pub NotRejoined : {DC VD : Type 0} → Event S V DC VD → Type 0
  NotRejoined (joins clock m v) = m ≢ n
  NotRejoined _ = Unit

  abbrev pub NoneRejoined : {DC VD : Type 0} → List (Event S V DC VD) → Type 0
  NoneRejoined [] = Unit
  NoneRejoined (event ∷ events) = NotRejoined event × NoneRejoined events

  stays :
      (o : Option (Engine S V × List EngineAction)) (q : Engine S V × List EngineAction)
      → o ≡ some q
      → StaysAway o
      → Away q.0
  stays none q p h = cc
  stays (some q') q p h =
      subst (λ (x : Engine S V × List EngineAction). Away x.0) (some_injective p) h

  no_view :
      (e : Engine S V) → n ≢ e.shard.node_id → WellFormed e → Away e → get_view n e.shard ≡ none
  unfolding get_view
  no_view e other valid away = elim (Option-cases (get_view n e.shard)) [
    | inl nothing ↦ nothing
    | inr (vo, held) ↦ elim (valid.sound.at n vo held).2 [
      | inl accepts ↦ cc
      | inr self ↦ absurd (other self)
    ]
  ]

  module _ {DC VD : Type 0} where
    step-StaysAway :
        (event : Event S V DC VD) (e : Engine S V)
        → NotRejoined event
        → Away e
        → StaysAway (step event e)
    unfolding step flush_change_feed mutate mutate_with_delta on_node_joined on_node_left
        Lifecycle.on_node_joined Lifecycle.on_node_left
    step-StaysAway (mutates clock f p urgency) e other h = sent_snapshot-Away _ _ _ h
    step-StaysAway (mutates_with_delta clock f p q urgency b) e other h =
        sent_delta-Away _ _ _ b _ h
    step-StaysAway (receives clock msg) e other h = handle_inbound-StaysAway clock msg e h
    step-StaysAway flushes e other h = h
    step-StaysAway (joins clock m v) e other h =
        reply_own-StaysAway m _ _ (accepts-joined n m e.lifecycle other h)
    step-StaysAway (leaves m) e other h = accepts-left n m e.lifecycle h
    step-StaysAway syncs e other h = periodic_sync-StaysAway e h

    run-Away :
        (events : List (Event S V DC VD)) (e : Engine S V)
        → WellFormed e
        → NoneRejoined events
        → Away e
        → (r : Engine S V) × (run events e ≡ some r)
          × WellFormed r
          × (r.shard.node_id ≡ e.shard.node_id)
          × Away r
    unfolding run
    run-Away [] e valid other h = (e, refl, valid, refl, h)
    run-Away (event ∷ events) e valid other h =
        let k = step-Keeps event e valid in
        let (r, ran, valid', node, away) =
          run-Away events k.result.0 k.well_formed other.1
            (stays _ k.result k.returns (step-StaysAway event e other.0 h)) in
        (r, ap (onward (run events)) k.returns ∙ ran, valid', node ∙ k.same_node, away)

-- A well-formed engine is told that another node has left. Whatever calls follow, with whatever late
-- messages and feeds, the engine runs without a panic, and as long as none of the calls is a join of
-- that node it holds no view of it.
pub run-stays_gone :
    {S V DC VD : Type 0} (n : NodeId) (events : List (Event S V DC VD)) (e : Engine S V)
    → n ≢ e.shard.node_id
    → WellFormed e
    → NoneRejoined n events
    → (r : Engine S V) × (run (leaves n ∷ events) e ≡ some r) × (get_view n r.shard ≡ none)
unfolding run step on_node_left Lifecycle.on_node_left
run-stays_gone n events e other valid none_rejoins =
    let node : (on_node_left n e).shard.node_id ≡ e.shard.node_id =
      (on_node_left-Frame n e.shard).0 in
    let (r, ran, still, same, away) =
      run-Away n events (on_node_left n e) (departed-IsValid e.lifecycle n e.shard valid)
        none_rejoins (accepts_self n e.lifecycle) in
    (r, ran, no_view n r (λ self. other (self ∙ same ∙ node)) still away)

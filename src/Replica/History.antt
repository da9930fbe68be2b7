-- ===== src/Replica/History.antt =====
-- The views of the peers over whole runs of an engine, beside the history of the cluster.
use dstate.Base.{
  String, ◌≡◌, refl, sym, ap, ◌∙◌, subst, Option, none, some, inl, inr, List, [], ◌∷◌, ◌==◌,
  Bool-cases,
}
use dstate.Types.Envelope.{NodeId, Clock}
use dstate.Types.Config.{SyncUrgency}
use dstate.Types.Generation.{Generation}
use dstate.Types.Message.{
  Bytes, SyncMessage, full_snapshot, delta_update, request_snapshot, sync, feed,
}
use dstate.ViewMap.Each.{Each, some_injective, Each-update}
use dstate.Shard.State.{ShardCore}
use dstate.Shard.Mutation.{apply_mutation, apply_mutation_with_delta, update_own_view, advanced}
use dstate.Shard.Each.{on_node_joined-Each, on_node_left-Each}
use dstate.Shard.Frame.{on_node_joined-Frame, on_node_left-Frame}
use dstate.SyncLogic.{SyncAction, broadcast_snapshot, should_periodic_sync}
use dstate.ChangeFeed.{route_inbound_batch}
use dstate.Lifecycle
use dstate.Lifecycle.{should_accept_from}
use dstate.Engine.State.{Engine, EngineAction, own_view_value}
use dstate.Engine.Outbound.{
  sync_action_to_engine_actions_snapshot, sync_action_to_engine_actions_delta, mutate,
  mutate_with_delta, flush_change_feed, periodic_sync, broadcast_own,
}
use dstate.Engine.Inbound.{
  reply_own, handle_request_snapshot, handle_inbound_sync, handle_inbound_change_feed,
  handle_inbound,
}
use dstate.Engine.Cluster.{on_node_joined, on_node_left, joined}
use dstate.Engine.Events.{
  Event, mutates, mutates_with_delta, receives, flushes, joins, leaves, syncs, step, run, onward,
}
use dstate.Engine.Keeps.{WellFormed}
use dstate.Engine.Invariant.{step-Keeps}
use dstate.Replica.Consistency.{
  IsTrue, Genuine, Tells, with_shard, full_snapshot-Tells, delta_update-Tells, feed_entries-Tells,
}

module _ {S V : Type 0} (Had : NodeId → Generation → V → Type 0) (e : Engine S V) where
  -- The engine that a call leaves, if it returns, has true views.
  abbrev Ensures : Option (Engine S V × List EngineAction) → Type 0
  Ensures none = Unit
  Ensures (some q) = Tells Had e q.0

  -- Only the shard and the codec matter.
  same_shard :
      (r r' : Engine S V)
      → r'.shard ≡ r.shard
      → r'.deserialize_view ≡ r.deserialize_view
      → r'.inbound_delta_applier ≡ r.inbound_delta_applier
      → Tells Had e r
      → Tells Had e r'
  same_shard r r' s d a t = record {
    views = subst (λ (x : ShardCore S V). Each (IsTrue Had x.node_id) x.views) (sym s) t.views;
    reads = d ∙ t.reads;
    applies = a ∙ t.applies;
  }

  reply_own-Ensures :
      (n : NodeId) (o : Option V) (r : Engine S V) → Tells Had e r → Ensures (reply_own n o r)
  reply_own-Ensures n none r t = tt
  reply_own-Ensures n (some v) r t = same_shard r _ refl refl refl t

  broadcast_own-Ensures :
      (o : Option V) (r : Engine S V) → Tells Had e r → Ensures (broadcast_own o r)
  broadcast_own-Ensures none r t = tt
  broadcast_own-Ensures (some v) r t = same_shard r _ refl refl refl t

  handle_request_snapshot-Ensures :
      (name : String) (requester : NodeId) (r : Engine S V)
      → Tells Had e r
      → Ensures (handle_request_snapshot name requester r)
  unfolding handle_request_snapshot
  handle_request_snapshot-Ensures name requester r t = elim (Bool-cases (name == r.state_name)) [
    | inr other ↦ rw other t
    | inl own ↦ elim (Bool-cases (should_accept_from requester r.lifecycle)) [
      | inr departed ↦ rw (own, departed) t
      | inl present ↦ rw (own, present) (reply_own-Ensures requester _ r t)
    ]
  ]

  handle_inbound-Ensures :
      (clock : Clock) (msg : SyncMessage) (r : Engine S V)
      → Genuine Had e msg
      → Tells Had e r
      → Ensures (handle_inbound clock (sync msg) r)
  unfolding handle_inbound handle_inbound_sync
  handle_inbound-Ensures clock (full_snapshot name source g w bytes) r h t =
      full_snapshot-Tells Had clock name source g w bytes e r h t
  handle_inbound-Ensures clock (delta_update name source g w bytes) r h t =
      delta_update-Tells Had clock name source g w bytes e r h t
  handle_inbound-Ensures clock (request_snapshot name requester) r h t =
      handle_request_snapshot-Ensures name requester r t

  own_write :
      (clock : Clock) (view : V) (s : ShardCore S V)
      → Each (IsTrue Had s.node_id) s.views
      → Each (IsTrue Had s.node_id) (update_own_view clock view s).views
  unfolding update_own_view
  own_write clock view s each = Each-update s.node_id _ s.views each (inl refl)

  sent_snapshot-Tells :
      (a : SyncAction) (view : V) (r : Engine S V)
      → Tells Had e r
      → Tells Had e (sync_action_to_engine_actions_snapshot a view r).0
  unfolding sync_action_to_engine_actions_snapshot
  sent_snapshot-Tells broadcast_snapshot view r t = same_shard r _ refl refl refl t
  sent_snapshot-Tells _ view r t = same_shard r _ refl refl refl t

  sent_delta-Tells :
      {VD : Type 0} (a : SyncAction) (view : V) (d : VD) (f : VD → Bytes) (r : Engine S V)
      → Tells Had e r
      → Tells Had e (sync_action_to_engine_actions_delta a view d f r).0
  unfolding sync_action_to_engine_actions_delta
  sent_delta-Tells broadcast_snapshot view d f r t = same_shard r _ refl refl refl t
  sent_delta-Tells _ view d f r t = same_shard r _ refl refl refl t

  mutate-Tells :
      (clock : Clock) (f : S → S) (p : S → V) (urgency : SyncUrgency) (r : Engine S V)
      → Tells Had e r
      → Tells Had e (mutate clock f p urgency r).0
  unfolding mutate apply_mutation update_own_view
  mutate-Tells clock f p urgency r t = sent_snapshot-Tells _ _ _ (
      with_shard Had e (record r { diagnostics = _ }) _ (same_shard r _ refl refl refl t) refl
        (own_write clock _
          (record (r.shard) { state = advanced clock (f r.shard.state.value) r.shard.state })
          t.views))

  mutate_with_delta-Tells :
      {DC VD : Type 0} (clock : Clock) (f : S → S × DC) (p : S → V) (q : DC → VD)
      (urgency : SyncUrgency) (b : VD → Bytes) (r : Engine S V)
      → Tells Had e r
      → Tells Had e (mutate_with_delta clock f p q urgency b r).0
  unfolding mutate_with_delta apply_mutation_with_delta update_own_view
  mutate_with_delta-Tells clock f p q urgency b r t = sent_delta-Tells _ _ _ b _ (
      with_shard Had e (record r { diagnostics = _ }) _ (same_shard r _ refl refl refl t) refl
        (own_write clock _
          (record (r.shard) { state = advanced clock (f r.shard.state.value).0 r.shard.state })
          t.views))

  on_node_joined-Ensures :
      (clock : Clock) (n : NodeId) (v : V) (r : Engine S V)
      → Tells Had e r
      → Ensures (on_node_joined clock n v r)
  unfolding on_node_joined Lifecycle.on_node_joined
  on_node_joined-Ensures clock n v r t =
      reply_own-Ensures n (own_view_value (joined clock n v r)) (joined clock n v r) (
        with_shard Had e (record r { lifecycle = _ }) _ (same_shard r _ refl refl refl t)
          (on_node_joined-Frame clock n v r.shard).0
          (on_node_joined-Each clock n v r.shard t.views (inr (inl refl))))

  periodic_sync-Ensures : (r : Engine S V) → Tells Had e r → Ensures (periodic_sync r)
  unfolding periodic_sync
  periodic_sync-Ensures r t = elim (Bool-cases (should_periodic_sync r.sync_logic)) [
    | inl on ↦ rw on (broadcast_own-Ensures (own_view_value r) r t)
    | inr off ↦ rw off t
  ]

  on_node_left-Tells :
      (n : NodeId) (r : Engine S V) → Tells Had e r → Tells Had e (on_node_left n r)
  unfolding on_node_left Lifecycle.on_node_left
  on_node_left-Tells n r t =
      with_shard Had e (record r { lifecycle = _; diagnostics = _ }) _
        (same_shard r _ refl refl refl t) (on_node_left-Frame n r.shard).0
        (on_node_left-Each n r.shard t.views)

  -- Every sync message that a call receives is genuine.
  abbrev pub Honest : {DC VD : Type 0} → Event S V DC VD → Type 0
  Honest (receives clock (sync msg)) = Genuine Had e msg
  Honest (mutates clock f p urgency) = Unit
  Honest _ = Unit

  abbrev pub AllHonest : {DC VD : Type 0} → List (Event S V DC VD) → Type 0
  AllHonest [] = Unit
  AllHonest (event ∷ events) = Honest event × AllHonest events

  ensured :
      (o : Option (Engine S V × List EngineAction)) (q : Engine S V × List EngineAction)
      → o ≡ some q
      → Ensures o
      → Tells Had e q.0
  ensured none q p t = cc
  ensured (some q') q p t =
      subst (λ (x : Engine S V × List EngineAction). Tells Had e x.0) (some_injective p) t

  module _ {DC VD : Type 0} where
    step-Ensures :
        (event : Event S V DC VD) (r : Engine S V)
        → Honest event
        → Tells Had e r
        → Ensures (step event r)
    unfolding step flush_change_feed handle_inbound handle_inbound_change_feed
    step-Ensures (mutates clock f p urgency) r h t = mutate-Tells clock f p urgency r t
    step-Ensures (mutates_with_delta clock f p q urgency b) r h t =
        mutate_with_delta-Tells clock f p q urgency b r t
    step-Ensures (receives clock (sync msg)) r h t = handle_inbound-Ensures clock msg r h t
    step-Ensures (receives clock (feed batch)) r h t =
        feed_entries-Tells Had (route_inbound_batch batch r.shard.node_id) e r t
    step-Ensures flushes r h t = same_shard r _ refl refl refl t
    step-Ensures (joins clock n v) r h t = on_node_joined-Ensures clock n v r t
    step-Ensures (leaves n) r h t = on_node_left-Tells n r t
    step-Ensures syncs r h t = periodic_sync-Ensures r t

    run-Tells :
        (events : List (Event S V DC VD)) (r : Engine S V)
        → WellFormed r
        → AllHonest events
        → Tells Had e r
        → (q : Engine S V) × (run events r ≡ some q) × Tells Had e q
    unfolding run
    run-Tells [] r valid h t = (r, refl, t)
    run-Tells (event ∷ events) r valid h t =
        let k = step-Keeps event r valid in
        let (q, ran, told) =
          run-Tells events k.result.0 k.well_formed h.1
            (ensured _ k.result k.returns (step-Ensures event r h.0 t)) in
        (q, ap (onward (run events)) k.returns ∙ ran, told)

-- From a well-formed engine with true views, after any run of calls in which every snapshot and delta
-- that arrives is genuine, the engine has run without a panic and each view that it holds of a peer
-- is the placeholder of a join or one that the peer had, at the generation under which it stands. The
-- messages may be lost, repeated, late and out of order, and feeds and departures may say anything.
pub run-IsTrue :
    {S V DC VD : Type 0} (Had : NodeId → Generation → V → Type 0) (events : List (Event S V DC VD))
    (e : Engine S V)
    → WellFormed e
    → Each (IsTrue Had e.shard.node_id) e.shard.views
    → AllHonest Had e events
    → (r : Engine S V) × (run events e ≡ some r) × Each (IsTrue Had r.shard.node_id) r.shard.views
run-IsTrue Had events e valid views honest =
    let (r, ran, told) =
      run-Tells Had e events e valid honest
        (record { views = views; reads = refl; applies = refl }) in
    (r, ran, told.views)

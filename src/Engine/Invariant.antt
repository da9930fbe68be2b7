-- ===== src/Engine/Invariant.antt =====
-- Every call of the engine keeps its views well-formed, and none panics.
use dstate.Base.{
  String, ◌≡◌, refl, ap, ◌∙◌, some, inl, inr, List, [], ◌∷◌, ◌==◌, eq_refl, Bool-cases,
}
use dstate.Types.Config.{SyncUrgency}
use dstate.Types.Envelope.{NodeId, Clock, StateObject}
use dstate.Types.Message.{
  Bytes, SyncMessage, full_snapshot, delta_update, request_snapshot, WireMessage, sync, feed,
}
use dstate.Types.Generation.{Generation}
use dstate.Shard.State.{ShardCore}
use dstate.Shard.Mutation.{apply_mutation, apply_mutation_with_delta, update_own_view}
use dstate.SyncLogic.{should_periodic_sync}
use dstate.ChangeFeed.{route_inbound_batch}
use dstate.Lifecycle
use dstate.Lifecycle.{LifecycleLogic, should_accept_from}
use dstate.Engine.State.{Engine, own_view_value}
use dstate.Engine.Outbound.{mutate, mutate_with_delta, flush_change_feed, periodic_sync}
use dstate.Engine.Snapshot.{handle_full_snapshot}
use dstate.Engine.Delta.{handle_delta_update}
use dstate.Engine.Inbound.{
  handle_request_snapshot, handle_inbound_sync, feed_entry, feed_entries,
  handle_inbound_change_feed, handle_inbound,
}
use dstate.Engine.Cluster.{joined, on_node_joined, on_node_left}
use dstate.Engine.Events.{
  Event, mutates, mutates_with_delta, receives, flushes, joins, leaves, syncs, step, run, onward,
}
use dstate.Engine.Shards.{handle_full_snapshot-shard, handle_delta_update-shard, feed_entry-shard}
use dstate.Engine.Valid.{
  IsValid, update_own_view-IsValid, accept_inbound_snapshot-IsValid, accept_inbound_delta-IsValid,
  mark_stale-IsValid, on_node_left-IsValid, on_node_joined-IsValid, rejoined-IsValid,
  departed-IsValid, accepts-remove,
}
use dstate.Shard.Frame.{
  accept_inbound_snapshot-Frame, accept_inbound_delta-Frame, mark_stale-Frame, on_node_joined-Frame,
  on_node_left-Frame,
}
use dstate.Engine.Keeps.{
  WellFormed, Keeps, own_view_value-some, broadcast_own-Keeps, reply_own-Keeps,
  sent_snapshot-WellFormed, sent_snapshot-node, sent_delta-WellFormed, sent_delta-node,
}

module _ {S V : Type 0} where
  -- What stays the same while inbound messages are handled.
  abbrev Same : Engine S V → Engine S V → Type 0
  Same e r = WellFormed r × (r.shard.node_id ≡ e.shard.node_id)

  handle_request_snapshot-Keeps :
      (name : String) (requester : NodeId) (e : Engine S V)
      → WellFormed e
      → Keeps e (handle_request_snapshot name requester e)
  unfolding handle_request_snapshot
  handle_request_snapshot-Keeps name requester e h = elim (Bool-cases (name == e.state_name)) [
    | inr other ↦
        rw other (record { result = _; returns = refl; well_formed = h; same_node = refl })
    | inl own ↦ elim (Bool-cases (should_accept_from requester e.lifecycle)) [
      | inr departed ↦
          rw (own, departed)
            (record { result = _; returns = refl; well_formed = h; same_node = refl })
      | inl present ↦ rw (own, present) (reply_own-Keeps requester _ e (own_view_value-some e h) h)
    ]
  ]

  handle_inbound_sync-Keeps :
      (clock : Clock) (msg : SyncMessage) (e : Engine S V)
      → WellFormed e
      → Keeps e (handle_inbound_sync clock msg e)
  unfolding handle_inbound_sync
  handle_inbound_sync-Keeps clock (full_snapshot name source g w bytes) e h =
      let same : Same e (handle_full_snapshot clock name source g w bytes e).0 =
        handle_full_snapshot-shard (Same e) (λ d r p. p) clock name source g w bytes e (h, refl)
          (on_node_left-IsValid e.lifecycle source e.shard h, (on_node_left-Frame source e.shard).0)
          (λ v present read. (
            accept_inbound_snapshot-IsValid e.lifecycle clock _ e.shard present h,
            (accept_inbound_snapshot-Frame clock _ e.shard).0,
          )) in
      record { result = _; returns = refl; well_formed = same.0; same_node = same.1 }
  handle_inbound_sync-Keeps clock (delta_update name source g w bytes) e h =
      let same : Same e (handle_delta_update clock name source g w bytes e).0 =
        handle_delta_update-shard (Same e) (λ d r p. p) clock name source g w bytes e (h, refl)
          (on_node_left-IsValid e.lifecycle source e.shard h, (on_node_left-Frame source e.shard).0)
          (λ applier current v a c r. (
            accept_inbound_delta-IsValid e.lifecycle clock source g w (λ _. v) e.shard h,
            (accept_inbound_delta-Frame clock source g w (λ _. v) e.shard).0,
          )) in
      record { result = _; returns = refl; well_formed = same.0; same_node = same.1 }
  handle_inbound_sync-Keeps clock (request_snapshot name requester) e h =
      handle_request_snapshot-Keeps name requester e h

  feed_entries-Same :
      (entries : List (String × NodeId × Generation)) (e r : Engine S V)
      → Same e r
      → Same e (feed_entries entries r)
  unfolding feed_entries
  feed_entries-Same [] e r h = h
  feed_entries-Same (entry ∷ rest) e r h = feed_entries-Same rest e (feed_entry entry r) (
      feed_entry-shard (Same e) (λ d r p. p) entry r h
        (
          mark_stale-IsValid r.lifecycle entry.1 entry.2.incarnation entry.2.age r.shard h.0,
          (mark_stale-Frame entry.1 entry.2.incarnation entry.2.age r.shard).0 ∙ h.1,
        ))

  handle_inbound-Keeps :
      (clock : Clock) (msg : WireMessage) (e : Engine S V)
      → WellFormed e
      → Keeps e (handle_inbound clock msg e)
  unfolding handle_inbound handle_inbound_change_feed
  handle_inbound-Keeps clock (sync msg) e h = handle_inbound_sync-Keeps clock msg e h
  handle_inbound-Keeps clock (feed batch) e h =
      let same : Same e (handle_inbound_change_feed batch e) =
        feed_entries-Same (route_inbound_batch batch e.shard.node_id) e e (h, refl) in
      record { result = _; returns = refl; well_formed = same.0; same_node = same.1 }

  on_node_joined-Keeps :
      (clock : Clock) (n : NodeId) (v : V) (e : Engine S V)
      → WellFormed e
      → Keeps e (on_node_joined clock n v e)
  unfolding on_node_joined Lifecycle.on_node_joined
  on_node_joined-Keeps clock n v e h =
      let k = reply_own-Keeps n (own_view_value e') e' (own_view_value-some e' valid) valid in
      record {
        result = k.result;
        returns = k.returns;
        well_formed = k.well_formed;
        same_node = k.same_node ∙ (on_node_joined-Frame clock n v e.shard).0;
      }
    where
      e' : Engine S V
      e' = joined clock n v e

      valid : WellFormed e'
      valid =
          on_node_joined-IsValid e'.lifecycle clock n v e.shard
            (accepts-remove e.lifecycle n n ∙ rw (eq_refl n))
            (rejoined-IsValid e.lifecycle n e.shard h)

  pub on_node_left-WellFormed :
      (n : NodeId) (e : Engine S V) → WellFormed e → WellFormed (on_node_left n e)
  unfolding on_node_left Lifecycle.on_node_left
  on_node_left-WellFormed n e h = departed-IsValid e.lifecycle n e.shard h

  pub on_node_left-node :
      (n : NodeId) (e : Engine S V) → (on_node_left n e).shard.node_id ≡ e.shard.node_id
  unfolding on_node_left Lifecycle.on_node_left
  on_node_left-node n e = (on_node_left-Frame n e.shard).0

  on_node_left-Keeps :
      (n : NodeId) (e : Engine S V) → WellFormed e → Keeps e (some (on_node_left n e, []))
  on_node_left-Keeps n e h = record {
    result = _;
    returns = refl;
    well_formed = on_node_left-WellFormed n e h;
    same_node = on_node_left-node n e;
  }

  -- The state of a shard does not matter to its views.
  with_state :
      (l : LifecycleLogic) (s : ShardCore S V) (state : StateObject S)
      → IsValid l s
      → IsValid l (record s { state = state })
  with_state l s state h = record { own = h.own; distinct = h.distinct; sound = h.sound }

  pub mutate-Keeps :
      (clock : Clock) (f : S → S) (p : S → V) (urgency : SyncUrgency) (e : Engine S V)
      → WellFormed e
      → WellFormed (mutate clock f p urgency e).0
        × ((mutate clock f p urgency e).0.shard.node_id ≡ e.shard.node_id)
  unfolding mutate apply_mutation update_own_view
  mutate-Keeps clock f p urgency e h = (
    sent_snapshot-WellFormed _ _ _
        (update_own_view-IsValid e.lifecycle clock _ _ (with_state e.lifecycle e.shard _ h)),
    ap (λ (s : ShardCore S V). s.node_id) (sent_snapshot-node _ _ _),
  )

  mutate_with_delta-Keeps :
      {DC VD : Type 0} (clock : Clock) (f : S → S × DC) (p : S → V) (q : DC → VD)
      (urgency : SyncUrgency) (b : VD → Bytes) (e : Engine S V)
      → WellFormed e
      → WellFormed (mutate_with_delta clock f p q urgency b e).0
        × ((mutate_with_delta clock f p q urgency b e).0.shard.node_id ≡ e.shard.node_id)
  unfolding mutate_with_delta apply_mutation_with_delta update_own_view
  mutate_with_delta-Keeps clock f p q urgency b e h = (
    sent_delta-WellFormed _ _ _ b _
        (update_own_view-IsValid e.lifecycle clock _ _ (with_state e.lifecycle e.shard _ h)),
    ap (λ (s : ShardCore S V). s.node_id) (sent_delta-node _ _ _ b _),
  )

  periodic_sync-Keeps : (e : Engine S V) → WellFormed e → Keeps e (periodic_sync e)
  unfolding periodic_sync
  periodic_sync-Keeps e h = elim (Bool-cases (should_periodic_sync e.sync_logic)) [
    | inl on ↦ rw on (broadcast_own-Keeps _ e (own_view_value-some e h) h)
    | inr off ↦ rw off (record { result = _; returns = refl; well_formed = h; same_node = refl })
  ]

module _ {S V DC VD : Type 0} where
  -- From a well-formed engine every call returns: none panics, and the engine that it leaves is
  -- well-formed and has the same node id.
  pub step-Keeps :
      (event : Event S V DC VD) (e : Engine S V) → WellFormed e → Keeps e (step event e)
  unfolding step flush_change_feed
  step-Keeps (mutates clock f p urgency) e h =
      let k = mutate-Keeps clock f p urgency e h in
      record { result = _; returns = refl; well_formed = k.0; same_node = k.1 }
  step-Keeps (mutates_with_delta clock f p q urgency b) e h =
      let k = mutate_with_delta-Keeps clock f p q urgency b e h in
      record { result = _; returns = refl; well_formed = k.0; same_node = k.1 }
  step-Keeps (receives clock msg) e h = handle_inbound-Keeps clock msg e h
  step-Keeps flushes e h = record { result = _; returns = refl; well_formed = h; same_node = refl }
  step-Keeps (joins clock n v) e h = on_node_joined-Keeps clock n v e h
  step-Keeps (leaves n) e h = on_node_left-Keeps n e h
  step-Keeps syncs e h = periodic_sync-Keeps e h

  -- Any list of calls, in any order, with any messages and clock readings, runs to its end without a
  -- panic from a well-formed engine; the engine that it leaves is well-formed and has the same node
  -- id.
  pub run-WellFormed :
      (events : List (Event S V DC VD)) (e : Engine S V)
      → WellFormed e
      → (r : Engine S V) × (run events e ≡ some r)
        × WellFormed r
        × (r.shard.node_id ≡ e.shard.node_id)
  unfolding run
  run-WellFormed [] e h = (e, refl, h, refl)
  run-WellFormed (event ∷ events) e h =
      let k = step-Keeps event e h in
      let (r, ran, valid, node) = run-WellFormed events k.result.0 k.well_formed in
      (r, ap (onward (run events)) k.returns ∙ ran, valid, node ∙ k.same_node)

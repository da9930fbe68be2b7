-- ===== src/Laws/Policy.antt =====
-- What an engine does with a snapshot or a delta of a wire version that it cannot read.
use dstate.Base.{
  ℕ, String, ◌≡◌, ◌≢◌, refl, true, false, Option, none, some, [], arith, ◌==◌, eq_refl, eq_iff,
  if◌then◌else◌, inc_u64, nat_eq,
}
use dstate.Types.Config.{VersionMismatchPolicy, keep_stale, drop_and_wait}
use dstate.Types.Envelope.{NodeId, Clock, StateViewObject}
use dstate.Types.Errors.{err, unknown_version}
use dstate.Types.Generation.{Generation}
use dstate.Types.Message.{Bytes, SyncMessage, full_snapshot, delta_update, request_snapshot, sync}
use dstate.ViewMap.Laws.{get-remove_node}
use dstate.Shard.State.{ShardCore, get_view}
use dstate.Shard.Membership.{on_node_left}
use dstate.Lifecycle.{should_accept_from}
use dstate.Versioning.{on_inbound, on_deserialize_error, policy_action, mismatch_reason}
use dstate.Diagnostics.{record_sync_failure}
use dstate.Engine.State.{Engine}
use dstate.Engine.Snapshot.{handle_full_snapshot, on_mismatch}
use dstate.Engine.Delta.{handle_delta_update, on_delta_mismatch}
use dstate.Engine.Inbound.{handle_inbound, handle_inbound_sync}

-- Of two nodes, the view that a policy leaves of `j` when a message of `source` cannot be read.
abbrev pub left_over :
    {V : Type 0}
    → VersionMismatchPolicy
    → NodeId
    → NodeId
    → Option (StateViewObject V)
    → Option (StateViewObject V)
left_over keep_stale source j view = view
left_over drop_and_wait source j view = if source == j then none else view

module _ {S V : Type 0} where
  -- The message is of this state and from a peer that has not departed, but its wire version is not
  -- one that the engine reads.
  abbrev pub IsUnreadable : SyncMessage → NodeId → Engine S V → Type 0
  IsUnreadable (full_snapshot name from g w bytes) source e =
      (from ≡ source)
      × (name ≡ e.state_name)
      × (v : ℕ) × (e.deserialize_view bytes w ≡ err (unknown_version v))
  IsUnreadable (delta_update name from g w bytes) source e =
      (from ≡ source) × (name ≡ e.state_name) × (nat_eq w e.wire_version ≡ false)
  IsUnreadable _ source e = ⊥

  get_view-left :
      (source j : NodeId) (s : ShardCore S V)
      → source ≢ s.node_id
      → get_view j (on_node_left source s) ≡ left_over drop_and_wait source j (get_view j s)
  unfolding get_view on_node_left
  get_view-left source j s other =
      ground (arith, eq_iff source s.node_id, get-remove_node source j s.views)

  -- The effect of a refused message by policy.
  record Refused (p : VersionMismatchPolicy) (source j : NodeId) (e r : Engine S V) : Type 0 where
    views : get_view j r.shard ≡ left_over p source j (get_view j e.shard)
    counted : r.diagnostics.metrics.sync_failures ≡ inc_u64 e.diagnostics.metrics.sync_failures
    state : r.shard.state ≡ e.shard.state

  on_node_left-state :
      (source : NodeId) (s : ShardCore S V) → (on_node_left source s).state ≡ s.state
  unfolding on_node_left
  on_node_left-state source s = ground arith

  on_mismatch-Refused :
      (p : VersionMismatchPolicy) (clock : Clock) (source j : NodeId) (w : ℕ) (reason : String)
      (e : Engine S V)
      → source ≢ e.shard.node_id
      → Refused p source j e (on_mismatch clock source (policy_action p w reason) e)
        × Refused p source j e (on_delta_mismatch clock source (policy_action p w reason) e)
  unfolding record_sync_failure
  on_mismatch-Refused keep_stale clock source j w reason e other = (
    record { views = refl; counted = refl; state = refl },
    record { views = refl; counted = refl; state = refl },
  )
  on_mismatch-Refused drop_and_wait clock source j w reason e other =
      let gone = get_view-left source j e.shard other in
      let same = on_node_left-state source e.shard in
      (
        record { views = gone; counted = refl; state = same },
        record { views = gone; counted = refl; state = same },
      )

  snapshot_refused :
      (clock : Clock) (name : String) (from source : NodeId) (g : Generation) (w : ℕ)
      (bytes : Bytes) (v : ℕ) (e : Engine S V)
      → from ≡ source
      → name ≡ e.state_name
      → should_accept_from source e.lifecycle ≡ true
      → e.deserialize_view bytes w ≡ err (unknown_version v)
      → handle_inbound clock (sync (full_snapshot name from g w bytes)) e
        ≡ some (
          on_mismatch clock source
              (policy_action e.versioning.policy v (mismatch_reason v e.versioning))
              e,
          [],
        )
  unfolding handle_inbound handle_inbound_sync handle_full_snapshot on_inbound on_deserialize_error
  snapshot_refused clock name from source g w bytes v e same named present unread =
      rw (same, named, eq_refl e.state_name, present, unread)

  delta_refused :
      (clock : Clock) (name : String) (from source : NodeId) (g : Generation) (w : ℕ)
      (bytes : Bytes) (e : Engine S V)
      → from ≡ source
      → name ≡ e.state_name
      → should_accept_from source e.lifecycle ≡ true
      → nat_eq w e.wire_version ≡ false
      → handle_inbound clock (sync (delta_update name from g w bytes)) e
        ≡ some (
          on_delta_mismatch clock source
              (policy_action e.versioning.policy w (mismatch_reason w e.versioning))
              e,
          [],
        )
  unfolding handle_inbound handle_inbound_sync handle_delta_update on_deserialize_error
  delta_refused clock name from source g w bytes e same named present unread =
      rw (same, named, eq_refl e.state_name, present, unread)

  -- A snapshot or a delta that another node, one that has not departed, sends in a wire version that this one does not read is
  -- counted as one failure and answered with nothing. The policy alone decides about the views: they
  -- all stay, or that of the sender goes and the others stay.
  pub unreadable_by_policy :
      (clock : Clock) (msg : SyncMessage) (source j : NodeId) (e : Engine S V)
      → source ≢ e.shard.node_id
      → should_accept_from source e.lifecycle ≡ true
      → IsUnreadable msg source e
      → (r : Engine S V) × (handle_inbound clock (sync msg) e ≡ some (r, []))
        × (get_view j r.shard ≡ left_over e.versioning.policy source j (get_view j e.shard))
        × (r.diagnostics.metrics.sync_failures ≡ inc_u64 e.diagnostics.metrics.sync_failures)
        × (r.shard.state ≡ e.shard.state)
  unfolding handle_inbound handle_inbound_sync
  unreadable_by_policy clock (full_snapshot name from g w bytes) source j e other present
        (same, named, v, unread) =
      let done =
        (on_mismatch-Refused e.versioning.policy clock source j v (mismatch_reason v e.versioning) e
          other).0 in
      (
        _,
        snapshot_refused clock name from source g w bytes v e same named present unread,
        done.views,
        done.counted,
        done.state,
      )
  unreadable_by_policy clock (delta_update name from g w bytes) source j e other present
        (same, named, unread) =
      let done =
        (on_mismatch-Refused e.versioning.policy clock source j w (mismatch_reason w e.versioning) e
          other).1 in
      (
        _,
        delta_refused clock name from source g w bytes e same named present unread,
        done.views,
        done.counted,
        done.state,
      )
  unreadable_by_policy clock (request_snapshot name requester) source j e other present unreadable =
      absurd unreadable

-- ===== src/Shard/Inbound.antt =====
-- Inbound snapshots, deltas and staleness marks of dstate/src/core/shard_core.rs.
use dstate.Base.{ℕ, Bool, not, Option, none, some, inc_u64, nat_eq, ltb, leb, if◌then◌else◌}
use dstate.Types.Envelope.{NodeId, Clock, StateViewObject}
use dstate.Types.Generation
use dstate.Types.Generation.{Generation, gt, lt, le}
use dstate.ViewMap
use dstate.ViewMap.{ViewMap, is_stale}
use dstate.Shard.State.{
  ShardCore, InboundSnapshot, AcceptResult, DeltaAcceptResult, applied, gap_detected, unknown_peer,
}

unfoldable pub should_accept : Generation → Generation → Bool
should_accept incoming local = gt incoming local

-- `pending.filter(|p| generation < *p)`
abbrev pub still_pending : Generation → Option Generation → Option Generation
still_pending generation none = none
still_pending generation (some p) = if lt generation p then some p else none

-- What `accept_inbound_delta` decides from the generations alone.
unfoldable pub delta_verdict : Generation → Generation → DeltaAcceptResult
delta_verdict generation existing =
    if ltb generation.incarnation existing.incarnation
    then DeltaAcceptResult.discarded
    else if ltb existing.incarnation generation.incarnation
    then gap_detected existing generation
    else if not (nat_eq generation.age (inc_u64 existing.age))
    then (if leb generation.age existing.age
        then DeltaAcceptResult.discarded
        else gap_detected existing generation)
    else applied

module _ {V : Type 0} where
  -- The entry that an accepted snapshot leaves, over the pending generation of the old one.
  abbrev pub snapshot_entry : Clock → InboundSnapshot V → Option Generation → StateViewObject V
  snapshot_entry clock snap pending = record {
    generation = snap.generation;
    wire_version = snap.wire_version;
    value = snap.view;
    created_time = snap.created_time;
    modified_time = snap.modified_time;
    synced_at = clock.now;
    pending_remote_generation = still_pending snap.generation pending;
    source_node = snap.source;
  }

  -- The closure that `accept_inbound_snapshot` hands to `update_if`.
  unfoldable pub snapshot_update :
      Clock → InboundSnapshot V → Option (StateViewObject V) → Option (StateViewObject V)
  unfolding should_accept gt lt
  snapshot_update clock snap none = some (snapshot_entry clock snap none)
  snapshot_update clock snap (some e) =
      if should_accept snap.generation e.generation
      then some (snapshot_entry clock snap e.pending_remote_generation)
      else none

  -- The entry that an applied delta leaves.
  abbrev pub delta_entry :
      Clock → NodeId → Generation → ℕ → V → StateViewObject V → StateViewObject V
  delta_entry clock source generation wire_version value existing = record {
    generation = generation;
    wire_version = wire_version;
    value = value;
    created_time = existing.created_time;
    modified_time = clock.unix_ms;
    synced_at = clock.now;
    pending_remote_generation = still_pending generation existing.pending_remote_generation;
    source_node = source;
  }

  -- The closure that `mark_stale` hands to `update_if`.
  unfoldable pub stale_update : Generation → Option (StateViewObject V) → Option (StateViewObject V)
  unfolding le
  stale_update incoming none = none
  stale_update incoming (some e) =
      if le incoming e.generation
      then none
      else some (record e { pending_remote_generation = some incoming })

module _ {S V : Type 0} where
  unfoldable pub accept_inbound_snapshot :
      Clock → InboundSnapshot V → ShardCore S V → ShardCore S V × AcceptResult
  accept_inbound_snapshot clock snap s =
      let written = ViewMap.update_if snap.source (snapshot_update clock snap) s.views in
      (
        record s { views = written.0 },
        if written.1 then AcceptResult.accepted else AcceptResult.discarded,
      )

  -- The shard after the verdict on a delta for the entry `existing`.
  abbrev pub on_verdict :
      Clock
      → NodeId
      → Generation
      → ℕ
      → (V → V)
      → StateViewObject V
      → DeltaAcceptResult
      → ShardCore S V
      → ShardCore S V × DeltaAcceptResult
  on_verdict clock source generation wire_version apply_fn existing applied s = (
    record s {
      views =
          (ViewMap.update source
            (delta_entry clock source generation wire_version (apply_fn existing.value) existing)
            s.views).0;
    },
    applied,
  )
  on_verdict clock source generation wire_version apply_fn existing DeltaAcceptResult.discarded s =
      (s, DeltaAcceptResult.discarded)
  on_verdict clock source generation wire_version apply_fn existing (gap_detected l i) s =
      (s, gap_detected l i)
  on_verdict clock source generation wire_version apply_fn existing unknown_peer s =
      (s, unknown_peer)

  -- The shard after a delta for the entry that was found, if any.
  abbrev pub on_entry :
      Clock
      → NodeId
      → Generation
      → ℕ
      → (V → V)
      → Option (StateViewObject V)
      → ShardCore S V
      → ShardCore S V × DeltaAcceptResult
  on_entry clock source generation wire_version apply_fn none s = (s, unknown_peer)
  on_entry clock source generation wire_version apply_fn (some existing) s =
      on_verdict clock source generation wire_version apply_fn existing
        (delta_verdict generation existing.generation) s

  unfoldable pub accept_inbound_delta :
      Clock → NodeId → Generation → ℕ → (V → V) → ShardCore S V → ShardCore S V × DeltaAcceptResult
  accept_inbound_delta clock source generation wire_version apply_fn s =
      on_entry clock source generation wire_version apply_fn (ViewMap.get source s.views) s

  unfoldable pub mark_stale : NodeId → ℕ → ℕ → ShardCore S V → ShardCore S V
  mark_stale source incarnation age s = record s {
    views = (ViewMap.update_if source (stale_update (Generation.new incarnation age)) s.views).0;
  }

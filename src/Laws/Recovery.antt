-- ===== src/Laws/Recovery.antt =====
-- What happens after a delta that does not follow on: the request, the reply and the snapshot.
use dstate.Base.{
  ℕ, String, ◌≡◌, refl, sym, ap, ◌∙◌, true, false, some, [], ◌∷◌, arith, ◌==◌, eq_iff, nat_eq,
  inc_u64, ◌&&◌,
}
use dstate.Types.Envelope.{NodeId, Clock, StateViewObject}
use dstate.Types.Errors.{ok}
use dstate.Types.Generation.{Generation, gt, gt→not_le}
use dstate.Types.Message.{Bytes, SyncMessage, full_snapshot, delta_update, request_snapshot, sync}
use dstate.ViewMap.Laws.{kept}
use dstate.Shard.State.{InboundSnapshot, get_view, AcceptResult}
use dstate.Shard.Inbound.{should_accept, snapshot_update, snapshot_entry}
use dstate.Lifecycle.{should_accept_from}
use dstate.Versioning.{on_inbound}
use dstate.Diagnostics.{record_snapshot_sent}
use dstate.Engine.State.{Engine, send_sync, InboundDeltaApplierFn, own_view_value, snapshot_message}
use dstate.Engine.Snapshot.{handle_full_snapshot, snapshot_counted, accept_view}
use dstate.Engine.Delta.{handle_delta_update, apply_delta_to, gap_from}
use dstate.Engine.Inbound.{handle_request_snapshot, handle_inbound_sync, handle_inbound, reply_own}
use dstate.Laws.Pending.{get_view-accept}

module _ {V : Type 0} where
  -- The snapshot that the engine makes of what it read.
  abbrev arrived : Clock → NodeId → Generation → ℕ → V → InboundSnapshot V
  arrived clock source g w v = record {
    source = source;
    generation = g;
    wire_version = w;
    view = v;
    created_time = clock.unix_ms;
    modified_time = clock.unix_ms;
  }

  accepted_update :
      (clock : Clock) (source : NodeId) (g : Generation) (w : ℕ) (v : V)
      (current : StateViewObject V)
      → gt g current.generation ≡ true
      → snapshot_update clock (arrived clock source g w v) (some current)
        ≡ some (snapshot_entry clock (arrived clock source g w v) current.pending_remote_generation)
  unfolding snapshot_update should_accept
  accepted_update clock source g w v current newer = rw newer

same_name : (a b : String) → a ≡ b → (a == b) ≡ true
same_name a b e = ground (arith, eq_iff a b)

module _ {S V : Type 0} where
  -- What a receiver holds of the node `source`.
  abbrev pub Holds : NodeId → Generation → V → Engine S V → Type 0
  Holds source g v e =
      (vo : StateViewObject V) × (get_view source e.shard ≡ some vo)
      × (vo.generation ≡ g)
      × (vo.value ≡ v)

  pub gap_asks :
      (clock : Clock) (source : NodeId) (name : String) (g : Generation) (w : ℕ) (bytes : Bytes)
      (r : Engine S V) (applier : InboundDeltaApplierFn V) (current : StateViewObject V)
      → name ≡ r.state_name
      → should_accept_from source r.lifecycle ≡ true
      → r.inbound_delta_applier ≡ some applier
      → get_view source r.shard ≡ some current
      → w ≡ r.wire_version
      → gt g current.generation ≡ true
      → (nat_eq g.incarnation current.generation.incarnation
          && nat_eq g.age (inc_u64 current.generation.age))
        ≡ false
      → handle_inbound clock (sync (delta_update name source g w bytes)) r
        ≡ some (gap_from source r)
  unfolding handle_inbound handle_inbound_sync handle_delta_update apply_delta_to
  gap_asks clock source name g w bytes r applier current named present a c same_version newer
        skipped =
      rw (same_name name r.state_name named, present, a, c, gt→not_le g current.generation newer)
        (ground arith)

  request_answered :
      (clock : Clock) (name : String) (requester : NodeId) (o : Engine S V) (v : V)
      → name ≡ o.state_name
      → should_accept_from requester o.lifecycle ≡ true
      → own_view_value o ≡ some v
      → handle_inbound clock (sync (request_snapshot name requester)) o
        ≡ reply_own requester (some v) o
  unfolding handle_inbound handle_inbound_sync handle_request_snapshot
  request_answered clock name requester o v named present own =
      rw (same_name name o.state_name named, present, own)

  snapshot_counted-Holds :
      (clock : Clock) (source : NodeId) (outcome : AcceptResult) (g : Generation) (v : V)
      (e : Engine S V)
      → Holds source g v e
      → Holds source g v (snapshot_counted clock source outcome e)
  snapshot_counted-Holds clock source AcceptResult.accepted g v e h = h
  snapshot_counted-Holds clock source AcceptResult.discarded g v e h = h

  pub snapshot_installed :
      (clock : Clock) (source : NodeId) (name : String) (g : Generation) (w : ℕ) (bytes : Bytes)
      (r : Engine S V) (current : StateViewObject V) (v : V)
      → name ≡ r.state_name
      → should_accept_from source r.lifecycle ≡ true
      → get_view source r.shard ≡ some current
      → gt g current.generation ≡ true
      → r.deserialize_view bytes w ≡ ok v
      → (handle_inbound clock (sync (full_snapshot name source g w bytes)) r
          ≡ some (accept_view clock source g w v r, []))
        × Holds source g v (accept_view clock source g w v r)
  unfolding handle_inbound handle_inbound_sync handle_full_snapshot on_inbound accept_view
  snapshot_installed clock source name g w bytes r current v named present c newer reads = (
    rw (same_name name r.state_name named, present, reads),
    snapshot_counted-Holds clock source _ g v _ (
      snapshot_entry clock (arrived clock source g w v) current.pending_remote_generation,
      get_view-accept clock (arrived clock source g w v) r.shard (some current) c
          ∙ ap (kept (some current)) (accepted_update clock source g w v current newer),
      refl,
      refl,
    ),
  )

  -- The owner `o` sends a delta that the receiver `r` cannot apply, since `r` misses at least one
  -- generation before it but holds an older view of `o` and can apply deltas. The nodes hold the same
  -- state, `o` has its own view, neither has departed for the other, they run
  -- the same wire version, and `r` reads back the view that `o` has written. Then `r` asks, `o`
  -- answers what `r` asks, and with that answer `r` holds the generation and the view of `o`.
  pub gap_recovers :
      (c1 c2 c3 : Clock) (o r : Engine S V) (bytes : Bytes) (v : V)
      (applier : InboundDeltaApplierFn V) (current : StateViewObject V)
      → let self = o.shard.node_id in
        let g = o.shard.state.generation in
        o.state_name ≡ r.state_name
        → o.wire_version ≡ r.wire_version
        → should_accept_from self r.lifecycle ≡ true
        → should_accept_from r.shard.node_id o.lifecycle ≡ true
        → own_view_value o ≡ some v
        → r.inbound_delta_applier ≡ some applier
        → get_view self r.shard ≡ some current
        → gt g current.generation ≡ true
        → (nat_eq g.incarnation current.generation.incarnation
            && nat_eq g.age (inc_u64 current.generation.age))
          ≡ false
        → r.deserialize_view (o.serialize_view v) o.wire_version ≡ ok v
        → (ask reply : SyncMessage) × (r1 o1 r2 : Engine S V) × (handle_inbound c1
              (sync (delta_update o.state_name self g o.wire_version bytes))
              r
            ≡ some (r1, send_sync self ask ∷ []))
          × (handle_inbound c2 (sync ask) o ≡ some (o1, send_sync r.shard.node_id reply ∷ []))
          × (handle_inbound c3 (sync reply) r1 ≡ some (r2, []))
          × Holds self g v r2
  gap_recovers c1 c2 c3 o r bytes v applier current names versions r_hears o_hears own a c newer
        skipped reads =
      let r1 = (gap_from o.shard.node_id r).0 in
      let installed =
        snapshot_installed c3 o.shard.node_id o.state_name o.shard.state.generation o.wire_version
          (o.serialize_view v) r1 current v names r_hears c newer reads in
      (
        request_snapshot r.state_name r.shard.node_id,
        snapshot_message (o.serialize_view v) o,
        r1,
        record o { diagnostics = record_snapshot_sent o.diagnostics },
        accept_view c3 o.shard.node_id o.shard.state.generation o.wire_version v r1,
        gap_asks c1 o.shard.node_id o.state_name o.shard.state.generation o.wire_version bytes r
            applier current names r_hears a c versions newer skipped,
        request_answered c2 r.state_name r.shard.node_id o v (sym names) o_hears own,
        installed.0,
        installed.1,
      )

-- ===== src/Engine/Shards.antt =====
-- What an inbound message does to the shard of an engine, as one rule for a property of engines that
-- does not look at the diagnostics.
use dstate.Base.{
  ℕ, String, ◌≡◌, refl, true, Option, none, some, inl, inr, ◌==◌, nat_eq, not, ◌||◌, inc_u64,
  Bool-cases,
}
use dstate.Types.Envelope.{NodeId, Clock, StateViewObject}
use dstate.Types.Errors.{Result, ok, err, unknown_version, malformed, DeserializeError}
use dstate.Types.Generation.{Generation, le}
use dstate.Types.Message.{Bytes}
use dstate.Shard.State.{
  get_view, AcceptResult, applied, gap_detected, unknown_peer, DeltaAcceptResult,
}
use dstate.Shard.Inbound.{accept_inbound_snapshot, accept_inbound_delta, mark_stale}
use dstate.Shard.Membership
use dstate.Versioning.{
  VersionMismatchAction, InboundVersionResult, accepted, version_mismatch, malformed_data,
  keep_view, drop_view, on_inbound, on_deserialize_error,
}
use dstate.Lifecycle.{should_accept_from}
use dstate.Diagnostics.{DiagnosticsLogic}
use dstate.Engine.State.{Engine, InboundDeltaApplierFn}
use dstate.Engine.Snapshot.{handle_full_snapshot, accept_view, on_snapshot_read, snapshot_counted}
use dstate.Engine.Delta.{
  handle_delta_update, apply_delta_to, apply_delta, accept_delta, delta_counted, on_delta_mismatch,
}
use dstate.Engine.Inbound.{feed_entry}

module _ {ℓ} {S V : Type 0} (P : Engine S V → Type ℓ)
    (blind : (d : DiagnosticsLogic) (e : Engine S V) → P e → P (record e { diagnostics = d })) where
  snapshot_counted-shard :
      (clock : Clock) (source : NodeId) (r : AcceptResult) (e : Engine S V)
      → P e
      → P (snapshot_counted clock source r e)
  snapshot_counted-shard clock source AcceptResult.accepted e h = blind _ e h
  snapshot_counted-shard clock source AcceptResult.discarded e h = blind _ e h

  on_snapshot_read-shard :
      (clock : Clock) (source : NodeId) (g : Generation) (w : ℕ) (r : InboundVersionResult V)
      (e : Engine S V)
      → P e
      → P (record e { shard = Membership.on_node_left source e.shard })
      → ((v : V)
          → r ≡ accepted v
          → P (record e {
            shard =
                (accept_inbound_snapshot clock
                  (record {
                    source = source;
                    generation = g;
                    wire_version = w;
                    view = v;
                    created_time = clock.unix_ms;
                    modified_time = clock.unix_ms;
                  })
                  e.shard).0;
          }))
      → P (on_snapshot_read clock source g w r e)
  unfolding accept_view
  on_snapshot_read-shard clock source g w (accepted v) e same left new =
      snapshot_counted-shard clock source _ _ (new v refl)
  on_snapshot_read-shard clock source g w (version_mismatch (keep_view n reason)) e same left new =
      blind _ e same
  on_snapshot_read-shard clock source g w (version_mismatch (drop_view n reason)) e same left new =
      blind _ _ left
  on_snapshot_read-shard clock source g w (malformed_data msg) e same left new = blind _ e same

  -- A snapshot leaves the shard, drops the view of its source, or is offered to the shard.
  pub handle_full_snapshot-shard :
      (clock : Clock) (name : String) (source : NodeId) (g : Generation) (w : ℕ) (bytes : Bytes)
      (e : Engine S V)
      → P e
      → P (record e { shard = Membership.on_node_left source e.shard })
      → ((v : V)
          → should_accept_from source e.lifecycle ≡ true
          → on_inbound bytes w e.deserialize_view e.versioning ≡ accepted v
          → P (record e {
            shard =
                (accept_inbound_snapshot clock
                  (record {
                    source = source;
                    generation = g;
                    wire_version = w;
                    view = v;
                    created_time = clock.unix_ms;
                    modified_time = clock.unix_ms;
                  })
                  e.shard).0;
          }))
      → P (handle_full_snapshot clock name source g w bytes e).0
  unfolding handle_full_snapshot
  handle_full_snapshot-shard clock name source g w bytes e same left new =
      elim (Bool-cases (name == e.state_name)) [
        | inr other ↦ rw other same
        | inl own ↦ elim (Bool-cases (should_accept_from source e.lifecycle)) [
          | inr departed ↦ rw (own, departed) same
          | inl present ↦
              rw (own, present)
                (on_snapshot_read-shard clock source g w _ e same left (λ v r. new v present r))
        ]
      ]

  delta_counted-shard :
      (clock : Clock) (source : NodeId) (r : DeltaAcceptResult) (e : Engine S V)
      → P e
      → P (delta_counted clock source r e).0
  delta_counted-shard clock source applied e h = blind _ e h
  delta_counted-shard clock source (gap_detected a b) e h = blind _ e h
  delta_counted-shard clock source DeltaAcceptResult.discarded e h = blind _ e h
  delta_counted-shard clock source unknown_peer e h = h

  accept_delta-shard :
      (clock : Clock) (source : NodeId) (g : Generation) (w : ℕ) (r : Result DeserializeError V)
      (e : Engine S V)
      → P e
      → ((v : V)
          → r ≡ ok v
          → P (record e { shard = (accept_inbound_delta clock source g w (λ _. v) e.shard).0 }))
      → P (accept_delta clock source g w r e).0
  unfolding accept_delta
  accept_delta-shard clock source g w (ok v) e same new =
      delta_counted-shard clock source _ _ (new v refl)
  accept_delta-shard clock source g w (err (unknown_version v)) e same new = blind _ e same
  accept_delta-shard clock source g w (err (malformed msg)) e same new = blind _ e same

  apply_delta_to-shard :
      (clock : Clock) (source : NodeId) (g : Generation) (w : ℕ) (bytes : Bytes)
      (applier : InboundDeltaApplierFn V) (current : StateViewObject V) (e : Engine S V)
      → P e
      → ((v : V)
          → applier bytes w current.value ≡ ok v
          → P (record e { shard = (accept_inbound_delta clock source g w (λ _. v) e.shard).0 }))
      → P (apply_delta_to clock source g w bytes applier current e).0
  unfolding apply_delta_to
  apply_delta_to-shard clock source g w bytes applier current e same new =
      elim (Bool-cases (
        not (nat_eq g.incarnation current.generation.incarnation)
        || not (nat_eq g.age (inc_u64 current.generation.age)))) [
          | inr next ↦ rw next (accept_delta-shard clock source g w _ e same new)
          | inl other ↦ rw other (elim (Bool-cases (le g current.generation)) [
            | inl old ↦ rw old (blind _ e same)
            | inr gap ↦ rw gap (blind _ e same)
          ])
        ]

  -- A delta leaves the shard, drops the view of its source, or is offered to the shard with the
  -- view that the applier made of the current one.
  pub handle_delta_update-shard :
      (clock : Clock) (name : String) (source : NodeId) (g : Generation) (w : ℕ) (bytes : Bytes)
      (e : Engine S V)
      → P e
      → P (record e { shard = Membership.on_node_left source e.shard })
      → ((applier : InboundDeltaApplierFn V) (current : StateViewObject V) (v : V)
          → e.inbound_delta_applier ≡ some applier
          → get_view source e.shard ≡ some current
          → applier bytes w current.value ≡ ok v
          → P (record e { shard = (accept_inbound_delta clock source g w (λ _. v) e.shard).0 }))
      → P (handle_delta_update clock name source g w bytes e).0
  unfolding handle_delta_update
  handle_delta_update-shard clock name source g w bytes e same left new =
      elim (Bool-cases (name == e.state_name)) [
        | inr other ↦ rw other same
        | inl own ↦ elim (Bool-cases (should_accept_from source e.lifecycle)) [
          | inr departed ↦ rw (own, departed) same
          | inl present ↦ elim (Bool-cases (nat_eq w e.wire_version)) [
            | inr mismatch ↦
                rw (own, present, mismatch) (by_action (on_deserialize_error w e.versioning))
            | inl version ↦
                rw (own, present, version)
                  (by_view e.inbound_delta_applier (get_view source e.shard)
                    (λ a c v p q. new a c v p q))
          ]
        ]
      ]
    where
      by_action : (a : VersionMismatchAction) → P (on_delta_mismatch clock source a e)
      by_action (keep_view n reason) = blind _ e same
      by_action (drop_view n reason) = blind _ _ left

      by_view :
          (o : Option (InboundDeltaApplierFn V)) (view : Option (StateViewObject V))
          → ((applier : InboundDeltaApplierFn V) (current : StateViewObject V) (v : V)
              → o ≡ some applier
              → view ≡ some current
              → applier bytes w current.value ≡ ok v
              → P (record e { shard = (accept_inbound_delta clock source g w (λ _. v) e.shard).0 }))
          → P (apply_delta clock source g w bytes o view e).0
      by_view none view made = same
      by_view (some applier) none made = same
      by_view (some applier) (some current) made =
          apply_delta_to-shard clock source g w bytes applier current e same
            (λ v r. made applier current v refl refl r)

  -- A notification leaves the shard or marks the view of its source.
  pub feed_entry-shard :
      (entry : String × NodeId × Generation) (e : Engine S V)
      → P e
      → P (record e { shard = mark_stale entry.1 entry.2.incarnation entry.2.age e.shard })
      → P (feed_entry entry e)
  unfolding feed_entry
  feed_entry-shard (name, source, g) e same marked = elim (Bool-cases (name == e.state_name)) [
    | inr other ↦ rw other same
    | inl own ↦ elim (Bool-cases (should_accept_from source e.lifecycle)) [
      | inr departed ↦ rw (own, departed) same
      | inl present ↦ rw (own, present) marked
    ]
  ]

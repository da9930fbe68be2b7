-- ===== src/Laws/Suppressed.antt =====
-- What a suppressed mutation does to the delta that follows it.
use dstate.Base.{
  ◌+◌, ◌<◌, ◌^◌, ◌≡◌, refl, true, false, ◌&&◌, some, [], ◌∷◌, arith, inc_u64, inc_u64_below, ℕ, ap,
  nat_eq,
}
use dstate.Types.Config.{SyncUrgency}
use dstate.Types.Envelope.{Clock, StateViewObject}
use dstate.Types.Generation.{Generation, gt}
use dstate.Types.Message.{Bytes, delta_update, sync}
use dstate.Shard.State.{get_view}
use dstate.Shard.Mutation.{apply_mutation_with_delta, update_own_view}
use dstate.SyncLogic.{resolve_action}
use dstate.Lifecycle.{should_accept_from}
use dstate.Engine.State.{Engine, broadcast_sync, InboundDeltaApplierFn, make_snapshot_request}
use dstate.Engine.Outbound.{mutate_with_delta, sync_action_to_engine_actions_delta}
use dstate.Engine.Inbound.{handle_inbound}
use dstate.Laws.Recovery.{gap_asks}

two_further : (n : ℕ) → n + 2 < 2 ^ 64 → inc_u64 (inc_u64 n) ≡ n + 2
two_further n room =
    omega (arith, inc_u64_below n (omega arith), inc_u64_below (n + 1) (omega arith))

module _ {S V DC VD : Type 0} where
  -- The receiver `r` is at the generation of the owner, whose age is at least two below the end of
  -- `u64`; it can apply deltas, hears the owner, and both have one state name and one wire version. The
  -- owner, which sends deltas, makes a mutation that is suppressed and then one that is sent at once. The
  -- first sends nothing. The second sends one delta, of the generation two further, which holds what the
  -- second mutation alone yields; and the receiver does not apply it but asks for a snapshot, leaving its
  -- views.
  pub suppressed_leaves_gap :
      (c1 c2 c3 : Clock) (f1 f2 : S → S × DC) (p : S → V) (q : DC → VD) (b : VD → Bytes)
      (o r : Engine S V) (applier : InboundDeltaApplierFn V) (current : StateViewObject V)
      → o.sync_logic.supports_delta ≡ true
      → o.state_name ≡ r.state_name
      → o.wire_version ≡ r.wire_version
      → should_accept_from o.shard.node_id r.lifecycle ≡ true
      → r.inbound_delta_applier ≡ some applier
      → get_view o.shard.node_id r.shard ≡ some current
      → current.generation ≡ o.shard.state.generation
      → o.shard.state.generation.age + 2 < 2 ^ 64
      → let first = mutate_with_delta c1 f1 p q SyncUrgency.suppress b o in
        let second = mutate_with_delta c2 f2 p q SyncUrgency.immediate b first.0 in
        let msg =
          delta_update o.state_name o.shard.node_id
            (record {
              incarnation = o.shard.state.generation.incarnation;
              age = o.shard.state.generation.age + 2;
            })
            o.wire_version
            (b (q (f2 (f1 o.shard.state.value).0).1)) in
        (first.1.actions ≡ [])
        × (second.1.actions ≡ broadcast_sync msg ∷ [])
        × (r' : Engine S V) × (handle_inbound c3 (sync msg) r
            ≡ some (r', make_snapshot_request o.shard.node_id r ∷ []))
        × (r'.shard ≡ r.shard)
  unfolding mutate_with_delta apply_mutation_with_delta update_own_view
      sync_action_to_engine_actions_delta resolve_action
  suppressed_leaves_gap c1 c2 c3 f1 f2 p q b o r applier current deltas names versions hears a c at
        room =
      let g : Generation = record {
        incarnation = o.shard.state.generation.incarnation;
        age = o.shard.state.generation.age + 2;
      } in
      let bytes = b (q (f2 (f1 o.shard.state.value).0).1) in
      (
        refl,
        rw deltas (
            ap
              (λ n.
                broadcast_sync (
                  delta_update o.state_name o.shard.node_id
                    (record { incarnation = o.shard.state.generation.incarnation; age = n })
                    o.wire_version bytes)
                ∷ [])
              (two_further o.shard.state.generation.age room)),
        _,
        gap_asks c3 o.shard.node_id o.state_name g o.wire_version bytes r applier current names
            hears a c versions
            (newer g current.generation o.shard.state.generation at refl room refl)
            (skips g current.generation o.shard.state.generation at refl room),
        refl,
      )
    where
      newer :
          (g h k : Generation)
          → h ≡ k
          → g.age ≡ k.age + 2
          → k.age + 2 < 2 ^ 64
          → g.incarnation ≡ k.incarnation
          → gt g h ≡ true
      newer g h k same age room inc = unfold gt in ground arith

      skips :
          (g h k : Generation)
          → h ≡ k
          → g.age ≡ k.age + 2
          → k.age + 2 < 2 ^ 64
          → (nat_eq g.incarnation h.incarnation && nat_eq g.age (inc_u64 h.age)) ≡ false
      skips g h k same age room = ground arith

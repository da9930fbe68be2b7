-- ===== src/Laws/Verdict.antt =====
-- Which deltas `accept_inbound_delta` of dstate/src/core/shard_core.rs applies.
use dstate.Base.{
  ◌+◌, ◌<◌, ◌^◌, ◌≡◌, Bool, false, ◌&&◌, nat_eq, inc_u64, arith, if◌then◌else◌, not, ◌||◌,
}
use dstate.Types.Generation.{Generation, gt}
use dstate.Shard.State.{DeltaAcceptResult, applied, gap_detected}
use dstate.Shard.Inbound.{delta_verdict}

-- `g` is the next generation of `old` within its incarnation.
abbrev pub is_next : Generation → Generation → Bool
is_next g old = nat_eq g.incarnation old.incarnation && nat_eq g.age (old.age + 1)

-- While the age has not reached the end of `u64`, a delta is applied exactly if it is the next
-- generation, is a gap if it is newer than that, and is discarded if it is not newer.
pub delta_verdict_lem :
    (g old : Generation)
    → old.age + 1 < 2 ^ 64
    → delta_verdict g old ≡ (
        if is_next g old
        then applied
        else if gt g old
        then gap_detected old g
        else DeltaAcceptResult.discarded)
unfolding delta_verdict gt
delta_verdict_lem g old h = ground arith

-- The check of the engine before it calls the delta applier agrees with the shard: what passes it is
-- applied.
pub precheck-delta_verdict :
    (g old : Generation)
    → (not (nat_eq g.incarnation old.incarnation) || not (nat_eq g.age (inc_u64 old.age))) ≡ false
    → delta_verdict g old ≡ applied
unfolding delta_verdict
precheck-delta_verdict g old h = ground arith

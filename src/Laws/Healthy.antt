-- ===== src/Laws/Healthy.antt =====
-- `health_status` of dstate/src/core/diagnostics.rs beside counts of the peers.
use dstate.Base.{
  ℕ, ◌+◌, ◌<◌, ◌≤◌, ◌^◌, ◌/◌, ◌≡◌, Bool, ◌&&◌, not, [], ◌∷◌, arith, ltb, nat_eq, if◌then◌else◌,
  length, filter, ◌==◌,
}
use dstate.HashMap
use dstate.HashMap.{HashMap}
use dstate.Types.Config.{Duration, Instant}
use dstate.Types.Envelope.{NodeId, Clock, StateViewObject}
use dstate.ViewMap.{is_stale}
use dstate.Shard.State.{ShardCore, snapshot}
use dstate.Diagnostics.{DiagnosticsLogic, PeerDiagnostics}
use dstate.Diagnostics.Health.{
  Tally, tally, tally_peer, is_failing, classify, healthy, degraded, unhealthy, health_status,
}

module _ {V : Type 0} (local : NodeId) (now : Instant) (max_staleness : Duration)
    (peers : HashMap PeerDiagnostics) where
  -- Entries of other nodes, those that `is_stale` of the view map finds stale, and those with failures.
  abbrev pub other : NodeId × StateViewObject V → Bool
  other x = not (x.0 == local)

  abbrev pub stale_other : NodeId × StateViewObject V → Bool
  stale_other x = other x && is_stale now max_staleness x.1

  abbrev pub failing_other : NodeId × StateViewObject V → Bool
  failing_other x = other x && is_failing (HashMap.get x.0 peers)

  abbrev pub well_other : NodeId × StateViewObject V → Bool
  well_other x =
      other x && not (is_stale now max_staleness x.1) && not (is_failing (HashMap.get x.0 peers))

  -- The tally adds up to the counts.
  Adds : Tally → HashMap (StateViewObject V) → Tally → Type 0
  Adds t m r =
      (r.healthy ≡ t.healthy + length (filter well_other m))
      × (r.stale ≡ t.stale + length (filter stale_other m))
      × (r.failing ≡ t.failing + length (filter failing_other m))
      × (r.total_peers ≡ t.total_peers + length (filter other m))

  Fits : Tally → HashMap (StateViewObject V) → Type 0
  Fits t m =
      (t.healthy + length m < 2 ^ 32)
      × (t.stale + length m < 2 ^ 32)
      × (t.failing + length m < 2 ^ 32)
      × (t.total_peers + length m < 2 ^ 32)

  tally_peer-lem :
      (x : NodeId × StateViewObject V) (m : HashMap (StateViewObject V)) (t r : Tally)
      → Fits t (x ∷ m)
      → Fits (tally_peer local now max_staleness peers x.0 x.1 t) m
        × (Adds (tally_peer local now max_staleness peers x.0 x.1 t) m r → Adds t (x ∷ m) r)
  unfolding tally_peer is_stale Adds Fits
  tally_peer-lem x m t r fits = ground arith

  tally-Adds :
      (m : HashMap (StateViewObject V)) (t : Tally)
      → Fits t m
      → Adds t m (tally local now max_staleness peers m t)
  unfolding tally
  tally-Adds [] t fits = unfold Adds in (omega arith, omega arith, omega arith, omega arith)
  tally-Adds (x ∷ m) t fits =
      let step =
        tally_peer-lem x m t
          (tally local now max_staleness peers m
            (tally_peer local now max_staleness peers x.0 x.1 t))
          fits in
      step.1 (tally-Adds m (tally_peer local now max_staleness peers x.0 x.1 t) step.0)

  well-other :
      (m : HashMap (StateViewObject V)) → length (filter well_other m) ≤ length (filter other m)
  well-other [] = omega arith
  well-other (x ∷ m) = ground (arith, well-other m)

status_of :
    (t : Tally) (well late failing all : ℕ)
    → t.healthy ≡ 0 + well
    → t.stale ≡ 0 + late
    → t.failing ≡ 0 + failing
    → t.total_peers ≡ 0 + all
    → well ≤ all
    → classify t ≡ (
        if nat_eq late 0 && nat_eq failing 0
        then healthy
        else if ltb (all / 2) well
        then degraded
        else unhealthy)
unfolding classify
status_of t well late failing all a b c d some_well = ground arith

-- A node with fewer than 2^32 views counts its peers as they are: those that are stale in the sense
-- of its queries, those whose last synchronisation failed, and those that are neither. It is healthy
-- exactly if no peer is stale or failing, and else degraded exactly if more than half of its peers,
-- the odd one rounded down, are well.
pub health_status_lem :
    {S V : Type 0} (clock : Clock) (max_staleness : Duration) (s : ShardCore S V)
    (d : DiagnosticsLogic)
    → length (snapshot s) < 2 ^ 32
    → let h = health_status clock max_staleness s d in
      let count = λ (p : NodeId × StateViewObject V → Bool). length (filter p (snapshot s)) in
      let well = count (well_other s.node_id clock.now max_staleness d.peers) in
      let late = count (stale_other s.node_id clock.now max_staleness d.peers) in
      let failing = count (failing_other s.node_id clock.now max_staleness d.peers) in
      let all = count (other s.node_id clock.now max_staleness d.peers) in
      (h.healthy_peers ≡ well)
      × (h.stale_peers ≡ late)
      × (h.failing_peers ≡ failing)
      × (h.status ≡ (
          if nat_eq late 0 && nat_eq failing 0
          then healthy
          else if ltb (all / 2) well
          then degraded
          else unhealthy))
unfolding health_status Adds Fits
health_status_lem clock max_staleness s d few =
    let (well, late, failing, all) =
      tally-Adds s.node_id clock.now max_staleness d.peers (snapshot s)
        (record { healthy = 0; stale = 0; failing = 0; total_peers = 0 })
        (omega arith, omega arith, omega arith, omega arith) in
    (
      omega (arith, well),
      omega (arith, late),
      omega (arith, failing),
      status_of
          (tally s.node_id clock.now max_staleness d.peers (snapshot s)
            (record { healthy = 0; stale = 0; failing = 0; total_peers = 0 }))
          _ _ _ _ well late failing all
          (well-other s.node_id clock.now max_staleness d.peers (snapshot s)),
    )

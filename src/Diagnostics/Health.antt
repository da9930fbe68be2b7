-- ===== src/Diagnostics/Health.antt =====
-- `sync_status` and `health_status` of dstate/src/core/diagnostics.rs, over the views of a shard.
use dstate.Base.{
  ℕ, ℤ, ◌-◌, ◌/◌, String, Bool, true, false, ◌&&◌, ◌||◌, Option, none, some, List, [], ◌∷◌, is_some,
  inc_u32, nat_eq, ltb, ◌==◌, if◌then◌else◌,
}
use dstate.HashMap
use dstate.HashMap.{HashMap}
use dstate.Types.Config.{Duration, Instant}
use dstate.Types.Envelope.{NodeId, Clock, StateViewObject}
use dstate.Types.Generation.{Generation}
use dstate.Shard.State.{ShardCore, snapshot}
use dstate.Diagnostics.{DiagnosticsLogic, PeerDiagnostics}

pub record PeerSyncStatus : Type 0 where
  pub node_id : NodeId
  pub local_age : ℕ
  pub remote_age : Option ℕ
  pub gap_count : ℕ
  pub consecutive_failures : ℕ
  pub last_sync_time : Option ℤ
  pub last_attempt_time : Option ℤ
  pub last_error : Option String
  pub last_sync_latency_ms : Option ℕ

pub data HealthStatus : Type 0 where
  healthy degraded unhealthy : HealthStatus

pub record StateHealth : Type 0 where
  pub state_name : String
  pub healthy_peers : ℕ
  pub stale_peers : ℕ
  pub failing_peers : ℕ
  pub status : HealthStatus

-- `pending_remote_generation.map(|g| g.age)`
abbrev pub age_of : Option Generation → Option ℕ
age_of none = none
age_of (some g) = some g.age

abbrev pub peer_status :
    {V : Type 0} → NodeId → StateViewObject V → Option PeerDiagnostics → PeerSyncStatus
peer_status node_id view none = record {
  node_id = node_id;
  local_age = view.generation.age;
  remote_age = age_of view.pending_remote_generation;
  gap_count = 0;
  consecutive_failures = 0;
  last_sync_time = none;
  last_attempt_time = none;
  last_error = none;
  last_sync_latency_ms = none;
}
peer_status node_id view (some d) = record {
  node_id = node_id;
  local_age = view.generation.age;
  remote_age = age_of view.pending_remote_generation;
  gap_count = d.gap_count;
  consecutive_failures = d.consecutive_failures;
  last_sync_time = d.last_sync_time;
  last_attempt_time = d.last_attempt_time;
  last_error = d.last_error;
  last_sync_latency_ms = d.last_sync_latency_ms;
}

abbrev pub status_list :
    {V : Type 0} → HashMap PeerDiagnostics → HashMap (StateViewObject V) → List PeerSyncStatus
status_list peers [] = []
status_list peers ((node_id, view) ∷ rest) =
    peer_status node_id view (HashMap.get node_id peers) ∷ status_list peers rest

-- The local variables of the loop in `health_status`.
pub record Tally : Type 0 where
  pub healthy : ℕ
  pub stale : ℕ
  pub failing : ℕ
  pub total_peers : ℕ

-- `now.checked_duration_since(synced_at).map_or(false, |d| d > max_staleness)`
abbrev pub synced_too_long_ago : Instant → Instant → Duration → Bool
synced_too_long_ago now synced_at max_staleness =
    if ltb now synced_at then false else ltb max_staleness (now - synced_at)

-- `diag.map_or(false, |d| d.consecutive_failures > 0)`
abbrev pub is_failing : Option PeerDiagnostics → Bool
is_failing none = false
is_failing (some d) = ltb 0 d.consecutive_failures

abbrev pub count_peer : Bool → Bool → Tally → Tally
count_peer false false t = record t {
  total_peers = inc_u32 t.total_peers;
  healthy = inc_u32 t.healthy;
}
count_peer true false t = record t { total_peers = inc_u32 t.total_peers; stale = inc_u32 t.stale }
count_peer false true t = record t {
  total_peers = inc_u32 t.total_peers;
  failing = inc_u32 t.failing;
}
count_peer true true t = record t {
  total_peers = inc_u32 t.total_peers;
  stale = inc_u32 t.stale;
  failing = inc_u32 t.failing;
}

-- One round of the loop.
unfoldable pub tally_peer :
    {V : Type 0}
    → NodeId
    → Instant
    → Duration
    → HashMap PeerDiagnostics
    → NodeId
    → StateViewObject V
    → Tally
    → Tally
tally_peer local_id now max_staleness peers node_id view t =
    if node_id == local_id
    then t
    else count_peer
        (is_some view.pending_remote_generation
          || synced_too_long_ago now view.synced_at max_staleness)
        (is_failing (HashMap.get node_id peers)) t

unfoldable pub tally :
    {V : Type 0}
    → NodeId
    → Instant
    → Duration
    → HashMap PeerDiagnostics
    → HashMap (StateViewObject V)
    → Tally
    → Tally
unfolding tally_peer
tally local_id now max_staleness peers [] t = t
tally local_id now max_staleness peers ((node_id, view) ∷ rest) t =
    tally local_id now max_staleness peers rest
      (tally_peer local_id now max_staleness peers node_id view t)

unfoldable pub classify : Tally → HealthStatus
classify t =
    if nat_eq t.stale 0 && nat_eq t.failing 0
    then healthy
    else if ltb 0 t.total_peers && ltb (t.total_peers / 2) t.healthy
    then degraded
    else unhealthy

module _ {S V : Type 0} where
  unfoldable pub sync_status : ShardCore S V → DiagnosticsLogic → List PeerSyncStatus
  sync_status shard d = status_list d.peers (snapshot shard)

  unfoldable pub health_status : Clock → Duration → ShardCore S V → DiagnosticsLogic → StateHealth
  unfolding classify
  health_status clock max_staleness shard d =
      let t =
        tally shard.node_id clock.now max_staleness d.peers (snapshot shard)
          (record { healthy = 0; stale = 0; failing = 0; total_peers = 0 }) in
      record {
        state_name = d.state_name;
        healthy_peers = t.healthy;
        stale_peers = t.stale;
        failing_peers = t.failing;
        status = classify t;
      }

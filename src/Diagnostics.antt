-- ===== src/Diagnostics.antt =====
-- `DiagnosticsLogic` of dstate/src/core/diagnostics.rs: counters, what is known of each peer, and
-- the health of the cluster.
pub mod Health
use dstate.Base.{ℕ, ℤ, String, Option, none, some, List, [], inc_u32, inc_u64}
use dstate.HashMap
use dstate.HashMap.{HashMap}
use dstate.Types.Envelope.{NodeId, Clock}

pub record StateSyncMetrics : Type 0 where
  pub total_mutations : ℕ
  pub deltas_sent : ℕ
  pub deltas_received : ℕ
  pub snapshots_sent : ℕ
  pub snapshots_received : ℕ
  pub deltas_suppressed : ℕ
  pub deltas_immediate : ℕ
  pub sync_failures : ℕ
  pub age_gaps_detected : ℕ
  pub stale_deltas_discarded : ℕ

abbrev pub default_metrics : StateSyncMetrics
default_metrics = record {
  total_mutations = 0;
  deltas_sent = 0;
  deltas_received = 0;
  snapshots_sent = 0;
  snapshots_received = 0;
  deltas_suppressed = 0;
  deltas_immediate = 0;
  sync_failures = 0;
  age_gaps_detected = 0;
  stale_deltas_discarded = 0;
}

pub record PeerDiagnostics : Type 0 where
  pub consecutive_failures : ℕ
  pub gap_count : ℕ
  pub last_sync_time : Option ℤ
  pub last_attempt_time : Option ℤ
  pub last_error : Option String
  pub last_sync_latency_ms : Option ℕ

abbrev pub default_peer : PeerDiagnostics
default_peer = record {
  consecutive_failures = 0;
  gap_count = 0;
  last_sync_time = none;
  last_attempt_time = none;
  last_error = none;
  last_sync_latency_ms = none;
}

pub record DiagnosticsLogic : Type 0 where
  pub state_name : String
  pub metrics : StateSyncMetrics
  pub peers : HashMap PeerDiagnostics

abbrev pub new : String → DiagnosticsLogic
new state_name = record { state_name = state_name; metrics = default_metrics; peers = [] }

-- `entry(peer).or_default()`
abbrev pub or_default : Option PeerDiagnostics → PeerDiagnostics
or_default none = default_peer
or_default (some d) = d

abbrev pub peer_diag : NodeId → DiagnosticsLogic → PeerDiagnostics
peer_diag peer d = or_default (HashMap.get peer d.peers)

unfoldable pub record_sync_success : NodeId → ℕ → Clock → DiagnosticsLogic → DiagnosticsLogic
record_sync_success peer latency_ms clock d = record d {
  peers =
      HashMap.insert peer
        (record (peer_diag peer d) {
          consecutive_failures = 0;
          last_sync_time = some clock.unix_ms;
          last_attempt_time = some clock.unix_ms;
          last_error = none;
          last_sync_latency_ms = some latency_ms;
        })
        d.peers;
}

unfoldable pub record_sync_failure : NodeId → String → Clock → DiagnosticsLogic → DiagnosticsLogic
record_sync_failure peer error clock d = record d {
  metrics = record (d.metrics) { sync_failures = inc_u64 d.metrics.sync_failures };
  peers =
      HashMap.insert peer
        (record (peer_diag peer d) {
          consecutive_failures = inc_u32 (peer_diag peer d).consecutive_failures;
          last_attempt_time = some clock.unix_ms;
          last_error = some error;
        })
        d.peers;
}

unfoldable pub record_gap_detected : NodeId → DiagnosticsLogic → DiagnosticsLogic
record_gap_detected peer d = record d {
  metrics = record (d.metrics) { age_gaps_detected = inc_u64 d.metrics.age_gaps_detected };
  peers =
      HashMap.insert peer
        (record (peer_diag peer d) { gap_count = inc_u64 (peer_diag peer d).gap_count }) d.peers;
}

unfoldable pub record_mutation : DiagnosticsLogic → DiagnosticsLogic
record_mutation d = record d {
  metrics = record (d.metrics) { total_mutations = inc_u64 d.metrics.total_mutations };
}

unfoldable pub record_delta_sent : DiagnosticsLogic → DiagnosticsLogic
record_delta_sent d = record d {
  metrics = record (d.metrics) { deltas_sent = inc_u64 d.metrics.deltas_sent };
}

unfoldable pub record_delta_received : NodeId → ℕ → Clock → DiagnosticsLogic → DiagnosticsLogic
unfolding record_sync_success
record_delta_received peer latency_ms clock d =
    record_sync_success peer latency_ms clock (record d {
      metrics = record (d.metrics) { deltas_received = inc_u64 d.metrics.deltas_received };
    })

unfoldable pub record_snapshot_sent : DiagnosticsLogic → DiagnosticsLogic
record_snapshot_sent d = record d {
  metrics = record (d.metrics) { snapshots_sent = inc_u64 d.metrics.snapshots_sent };
}

unfoldable pub record_snapshot_received : NodeId → ℕ → Clock → DiagnosticsLogic → DiagnosticsLogic
unfolding record_sync_success
record_snapshot_received peer latency_ms clock d =
    record_sync_success peer latency_ms clock (record d {
      metrics = record (d.metrics) { snapshots_received = inc_u64 d.metrics.snapshots_received };
    })

unfoldable pub record_delta_suppressed : DiagnosticsLogic → DiagnosticsLogic
record_delta_suppressed d = record d {
  metrics = record (d.metrics) { deltas_suppressed = inc_u64 d.metrics.deltas_suppressed };
}

unfoldable pub record_delta_immediate : DiagnosticsLogic → DiagnosticsLogic
record_delta_immediate d = record d {
  metrics = record (d.metrics) { deltas_immediate = inc_u64 d.metrics.deltas_immediate };
}

unfoldable pub record_stale_delta_discarded : DiagnosticsLogic → DiagnosticsLogic
record_stale_delta_discarded d = record d {
  metrics = record (d.metrics) {
    stale_deltas_discarded = inc_u64 d.metrics.stale_deltas_discarded;
  };
}

unfoldable pub remove_peer : NodeId → DiagnosticsLogic → DiagnosticsLogic
remove_peer peer d = record d { peers = HashMap.remove peer d.peers }

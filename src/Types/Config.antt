-- ===== src/Types/Config.antt =====
-- dstate/src/types/config.rs, `VersionMismatchPolicy` of types/node.rs, `SyncUrgency` of
-- traits/state.rs.
use dstate.Base.{ℕ, ◌*◌, ◌^◌, Bool, Option}

-- `std::time::Duration` and `std::time::Instant`, in nanoseconds.
abbrev pub Duration : Type 0
Duration = ℕ

abbrev pub Instant : Type 0
Instant = ℕ

-- `Duration::from_secs`
abbrev pub from_secs : ℕ → Duration
from_secs n = n * 10 ^ 9

pub data PushMode : Type 0 where
  active_push active_feed_lazy_pull : PushMode

pub record ChangeFeedConfig : Type 0 where
  pub batch_interval : Duration

pub record SyncStrategy : Type 0 where
  pub push_mode : Option PushMode
  pub periodic_full_sync : Option Duration
  pub pull_on_query : Bool
  pub change_feed : ChangeFeedConfig

pub data VersionMismatchPolicy : Type 0 where
  keep_stale drop_and_wait : VersionMismatchPolicy

pub record StateConfig : Type 0 where
  pub sync_strategy : SyncStrategy
  pub pull_timeout : Duration
  pub version_mismatch_policy : VersionMismatchPolicy

pub data SyncUrgency : Type 0 where
  immediate : SyncUrgency
  delayed : Duration → SyncUrgency
  suppress : SyncUrgency
  default : SyncUrgency

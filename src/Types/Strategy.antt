-- ===== src/Types/Strategy.antt =====
-- The constructors of `SyncStrategy` and the `Default` implementations of
-- dstate/src/types/config.rs.
use dstate.Base.{true, false, none, some}
use dstate.Types.Config.{
  Duration, from_secs, PushMode, ChangeFeedConfig, SyncStrategy, StateConfig, VersionMismatchPolicy,
}

abbrev pub default_change_feed : ChangeFeedConfig
default_change_feed = record { batch_interval = from_secs 1 }

abbrev pub active_push : SyncStrategy
active_push = record {
  push_mode = some PushMode.active_push;
  periodic_full_sync = none;
  pull_on_query = false;
  change_feed = default_change_feed;
}

abbrev pub feed_lazy_pull : SyncStrategy
feed_lazy_pull = record {
  push_mode = some PushMode.active_feed_lazy_pull;
  periodic_full_sync = none;
  pull_on_query = true;
  change_feed = default_change_feed;
}

abbrev pub feed_with_periodic_sync : Duration → SyncStrategy
feed_with_periodic_sync interval = record {
  push_mode = some PushMode.active_feed_lazy_pull;
  periodic_full_sync = some interval;
  pull_on_query = true;
  change_feed = default_change_feed;
}

abbrev pub periodic_only : Duration → SyncStrategy
periodic_only interval = record {
  push_mode = none;
  periodic_full_sync = some interval;
  pull_on_query = false;
  change_feed = default_change_feed;
}

abbrev pub default_config : StateConfig
default_config = record {
  sync_strategy = active_push;
  pull_timeout = from_secs 5;
  version_mismatch_policy = VersionMismatchPolicy.keep_stale;
}

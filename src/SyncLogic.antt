-- ===== src/SyncLogic.antt =====
-- `SyncLogic` of dstate/src/core/sync_logic.rs: what to send for a mutation of a given urgency.
use dstate.Base.{String, Bool, Option, none, some, is_some, if◌then◌else◌}
use dstate.Types.Config.{Duration, PushMode, SyncStrategy, SyncUrgency}

pub data SyncAction : Type 0 where
  broadcast_snapshot broadcast_delta notify_change_feed : SyncAction
  schedule_delayed : Duration → SyncAction
  suppress : SyncAction

pub record SyncLogic : Type 0 where
  pub state_name : String
  pub strategy : SyncStrategy
  pub supports_delta : Bool

abbrev pub new : String → SyncStrategy → Bool → SyncLogic
new state_name strategy supports_delta = record {
  state_name = state_name;
  strategy = strategy;
  supports_delta = supports_delta;
}

abbrev pub broadcast_action : SyncLogic → SyncAction
broadcast_action l = if l.supports_delta then broadcast_delta else broadcast_snapshot

-- The row of `SyncUrgency::Default`.
abbrev pub default_action : Option PushMode → SyncLogic → SyncAction
default_action (some PushMode.active_push) l = broadcast_action l
default_action (some PushMode.active_feed_lazy_pull) l = notify_change_feed
default_action none l = suppress

unfoldable pub resolve_action : SyncUrgency → SyncLogic → SyncAction
resolve_action SyncUrgency.immediate l = broadcast_action l
resolve_action (SyncUrgency.delayed d) l = schedule_delayed d
resolve_action SyncUrgency.suppress l = suppress
resolve_action SyncUrgency.default l = default_action l.strategy.push_mode l

unfoldable pub should_periodic_sync : SyncLogic → Bool
should_periodic_sync l = is_some l.strategy.periodic_full_sync

abbrev pub periodic_interval : SyncLogic → Option Duration
periodic_interval l = l.strategy.periodic_full_sync

-- ===== src/Startup.antt =====
-- `PersistenceStartupLogic` of dstate/src/core/persistence_startup_logic.rs: the state that a node
-- starts from, given what its storage returned.
use dstate.Base.{ℕ, String, Option, none, some, as_u64, inc_u64, nat_eq, leb, if◌then◌else◌}
use dstate.Types.Envelope.{Clock, StateObject}
use dstate.Types.Errors.{Result, ok, err, PersistError, persist_error_text}
use dstate.Types.Generation

-- `fallback_to_empty` has the reason, `migrated` the version that was stored.
pub data StartupOutcome (S : Type 0) : Type 0 where
  fresh restored : StateObject S → StartupOutcome S
  migrated : StateObject S → ℕ → StartupOutcome S
  fallback_to_empty : StateObject S → String → StartupOutcome S

pub record PersistenceStartupLogic : Type 0 where
  pub current_storage_version : ℕ

-- `std::cmp::max` on `u64`
abbrev pub max_u64 : ℕ → ℕ → ℕ
max_u64 a b = if leb a b then b else a

module _ {S : Type 0} where
  -- `state` and `into_state`
  unfoldable pub into_state : StartupOutcome S → StateObject S
  into_state (fresh state) = state
  into_state (restored state) = state
  into_state (migrated state from_version) = state
  into_state (fallback_to_empty state reason) = state

  unfoldable pub fresh_state : S → Clock → PersistenceStartupLogic → StateObject S
  fresh_state value clock l = record {
    generation = Generation.new (as_u64 clock.unix_ms) 0;
    storage_version = l.current_storage_version;
    value = value;
    created_time = clock.unix_ms;
    modified_time = clock.unix_ms;
  }

  unfoldable pub fresh_state_at_least : S → Clock → ℕ → PersistenceStartupLogic → StateObject S
  fresh_state_at_least value clock old_incarnation l = record {
    generation = Generation.new (max_u64 (as_u64 clock.unix_ms) (inc_u64 old_incarnation)) 0;
    storage_version = l.current_storage_version;
    value = value;
    created_time = clock.unix_ms;
    modified_time = clock.unix_ms;
  }

  -- The outcome of a migration of `loaded`.
  abbrev pub after_migration :
      S → Clock → PersistenceStartupLogic → StateObject S → Result String S → StartupOutcome S
  after_migration default_value clock l loaded (ok migrated_value) =
      migrated
        (record loaded { storage_version = l.current_storage_version; value = migrated_value })
        loaded.storage_version
  after_migration default_value clock l loaded (err reason) =
      fallback_to_empty (fresh_state_at_least default_value clock loaded.generation.incarnation l)
        reason

  unfoldable pub initialize :
      Result PersistError (Option (StateObject S))
      → S
      → Clock
      → (S → ℕ → Result String S)
      → PersistenceStartupLogic
      → StartupOutcome S
  initialize (err e) default_value clock migrate_fn l =
      fallback_to_empty (fresh_state default_value clock l) (persist_error_text e)
  initialize (ok none) default_value clock migrate_fn l = fresh (fresh_state default_value clock l)
  initialize (ok (some loaded)) default_value clock migrate_fn l =
      if nat_eq loaded.storage_version l.current_storage_version
      then restored loaded
      else after_migration default_value clock l loaded
          (migrate_fn loaded.value loaded.storage_version)

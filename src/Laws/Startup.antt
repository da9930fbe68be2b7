-- ===== src/Laws/Startup.antt =====
-- `initialize` of dstate/src/core/persistence_startup_logic.rs.
use dstate.Base.{
  ℕ, ◌+◌, ◌<◌, ◌^◌, String, ◌≡◌, ◌≢◌, ◌⊎◌, inl, inr, some, true, arith, nat_eq, if◌then◌else◌,
}
use dstate.Types.Envelope.{Clock, StateObject}
use dstate.Types.Errors.{Result, ok, err}
use dstate.Types.Generation.{gt}
use dstate.Shard.Inbound.{should_accept}
use dstate.Startup.{PersistenceStartupLogic, initialize, into_state, fresh_state_at_least}

module _ {S : Type 0} where
  -- After a failed migration the peers that knew the old state accept the new one, whatever the clock
  -- says and whatever age the old state had, unless the old incarnation was the last `u64`.
  pub fallback_supersedes :
      (loaded : StateObject S) (default_value : S) (clock : Clock)
      (migrate_fn : S → ℕ → Result String S) (l : PersistenceStartupLogic) (reason : String)
      → loaded.storage_version ≢ l.current_storage_version
      → migrate_fn loaded.value loaded.storage_version ≡ err reason
      → loaded.generation.incarnation + 1 < 2 ^ 64
      → should_accept
          (into_state (initialize (ok (some loaded)) default_value clock migrate_fn l)).generation
          loaded.generation
        ≡ true
  unfolding should_accept gt initialize into_state fresh_state_at_least
  fallback_supersedes loaded default_value clock migrate_fn l reason other failed room =
      ground arith

  -- A loaded state that stands at the current storage version, whether or not a migration of it would
  -- succeed, or that migrates to `v`, keeps its generation and its times and stands at the current
  -- storage version. Its value is the loaded one in the first case, and `v` in any other.
  pub loaded_keeps_generation :
      (loaded : StateObject S) (default_value v : S) (clock : Clock)
      (migrate_fn : S → ℕ → Result String S) (l : PersistenceStartupLogic)
      → (loaded.storage_version ≡ l.current_storage_version)
        ⊎ (migrate_fn loaded.value loaded.storage_version ≡ ok v)
      → let s = into_state (initialize (ok (some loaded)) default_value clock migrate_fn l) in
        (s.generation ≡ loaded.generation)
        × (s.storage_version ≡ l.current_storage_version)
        × (s.created_time ≡ loaded.created_time)
        × (s.modified_time ≡ loaded.modified_time)
        × (s.value
            ≡ (if nat_eq loaded.storage_version l.current_storage_version then loaded.value else v))
  unfolding initialize into_state
  loaded_keeps_generation loaded default_value v clock migrate_fn l (inl current) = ground arith
  loaded_keeps_generation loaded default_value v clock migrate_fn l (inr migrated) = ground arith

-- ===== src/TestSupport/Persistence.antt =====
-- The storages of dstate/src/test_support/test_persist.rs, and a start from them.
use dstate.Base.{
  ℕ, String, ◌≡◌, refl, ap, ◌∙◌, Option, none, some, List, [], ◌∷◌, ◌++◌, nat_eq, true, arith,
}
use dstate.Types.Envelope.{Clock, StateObject}
use dstate.Types.Errors.{Result, ok, err, PersistError, storage_unavailable}
use dstate.Startup.{PersistenceStartupLogic, restored, initialize}

-- `InMemoryPersistence`: what its lock guards.
pub record InMemoryPersistence (S : Type 0) : Type 0 where
  pub stored : Option (StateObject S)

-- A `StatePersistence`, with a storage of type `P`: `save` leaves a storage, `load` reads it.
pub record StatePersistence (P S : Type 0) : Type 0 where
  pub save : StateObject S → P → P × Result PersistError Unit
  pub load : P → Result PersistError (Option (StateObject S))

same_version : (a b : ℕ) → a ≡ b → nat_eq a b ≡ true
same_version a b h = ground arith

module _ {S : Type 0} where
  unfoldable pub new : InMemoryPersistence S
  new = record { stored = none }

  unfoldable pub in_memory : StatePersistence (InMemoryPersistence S) S
  in_memory = record {
    save = λ state p. (record { stored = some state }, ok tt);
    load = λ p. ok p.stored;
  }

  -- `FailingPersistence`, a type without fields.
  unfoldable pub failing : StatePersistence Unit S
  failing = record {
    save = λ state p. (p, err (storage_unavailable "FailingPersistence always fails"));
    load = λ p. err (storage_unavailable "FailingPersistence always fails");
  }

  -- The storage after states are saved in order.
  unfoldable pub save_all : {P : Type 0} → StatePersistence P S → List (StateObject S) → P → P
  save_all m [] p = p
  save_all m (state ∷ states) p = save_all m states (m.save state p).0

  save_all-last :
      (states : List (StateObject S)) (last : StateObject S) (p : InMemoryPersistence S)
      → (save_all in_memory (states ++ last ∷ []) p).stored ≡ some last
  unfolding save_all in_memory
  save_all-last [] last p = refl
  save_all-last (state ∷ states) last p = save_all-last states last (in_memory.save state p).0

  -- A node that starts from an in-memory storage restores exactly the state that was saved last,
  -- whatever was saved before it and whatever the storage held, if the storage version is the current
  -- one.
  pub save_all-initialize :
      (states : List (StateObject S)) (last : StateObject S) (p : InMemoryPersistence S)
      (default_value : S) (clock : Clock) (migrate_fn : S → ℕ → Result String S)
      (l : PersistenceStartupLogic)
      → last.storage_version ≡ l.current_storage_version
      → initialize
          (in_memory.load (save_all in_memory (states ++ last ∷ []) p))
          default_value
          clock
          migrate_fn
          l
        ≡ restored last
  unfolding initialize in_memory
  save_all-initialize states last p default_value clock migrate_fn l same =
      ap (λ o. initialize (ok o) default_value clock migrate_fn l) (save_all-last states last p)
      ∙ rw (same_version last.storage_version l.current_storage_version same) refl

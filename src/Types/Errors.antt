-- ===== src/Types/Errors.antt =====
-- dstate/src/types/errors.rs and `PersistError` of traits/persistence.rs, with their texts.
use Prim.Native.String.{◌++◌, slice}
use dstate.Base.{ℕ, zero, suc, ◌+◌, ◌/◌, ◌%◌, String, ltb, if◌then◌else◌}

-- `std::result::Result`
pub data Result {ℓ} (E A : Type ℓ) : Type ℓ where
  ok : A → Result E A
  err : E → Result E A

pub data DeserializeError : Type 0 where
  unknown_version : ℕ → DeserializeError
  malformed : String → DeserializeError

pub data RegistryError : Type 0 where
  state_not_registered : String → RegistryError
  type_mismatch : String → String → String → RegistryError
  duplicate_name : String → RegistryError

pub data PersistError : Type 0 where
  storage_unavailable deserialization_failed io : String → PersistError

-- The text of a number in decimal; every `u64` has 20 digits at most.
digits : ℕ → ℕ → String
digits zero n = ""
digits (suc f) n =
    let rest = digits f (n / 10) in
    let last = slice "0123456789" (n % 10) (n % 10 + 1) in if ltb n 10 then last else rest ++ last

unfoldable pub decimal : ℕ → String
unfolding digits
decimal n = digits 20 n

unfoldable pub persist_error_text : PersistError → String
persist_error_text (storage_unavailable msg) = "storage unavailable: " ++ msg
persist_error_text (deserialization_failed msg) = "deserialization failed: " ++ msg
persist_error_text (io msg) = "I/O error: " ++ msg

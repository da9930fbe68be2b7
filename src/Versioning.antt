-- ===== src/Versioning.antt =====
-- `VersioningLogic` of dstate/src/core/versioning_logic.rs: what to do with a message, or a stored
-- state, of another version.
use Prim.Native.String.{◌++◌}
use dstate.Base.{ℕ, String, nat_eq, if◌then◌else◌}
use dstate.Types.Config.{VersionMismatchPolicy, keep_stale, drop_and_wait}
use dstate.Types.Errors.{Result, ok, err, DeserializeError, unknown_version, malformed, decimal}
use dstate.Types.Message.{Bytes}

-- The wire version that was received, and the reason.
pub data VersionMismatchAction : Type 0 where
  keep_view drop_view : ℕ → String → VersionMismatchAction

pub data InboundVersionResult (V : Type 0) : Type 0 where
  accepted : V → InboundVersionResult V
  version_mismatch : VersionMismatchAction → InboundVersionResult V
  malformed_data : String → InboundVersionResult V

pub record VersioningLogic : Type 0 where
  pub state_name : String
  pub policy : VersionMismatchPolicy
  pub current_wire_version : ℕ
  pub current_storage_version : ℕ

abbrev pub new : String → VersionMismatchPolicy → ℕ → ℕ → VersioningLogic
new state_name policy current_wire_version current_storage_version = record {
  state_name = state_name;
  policy = policy;
  current_wire_version = current_wire_version;
  current_storage_version = current_storage_version;
}

unfoldable pub mismatch_reason : ℕ → VersioningLogic → String
mismatch_reason wire_version l =
    "state '"
    ++ (l.state_name
        ++ ("': received wire_version="
            ++ (decimal wire_version
                ++ (", local outbound wire_version is " ++ decimal l.current_wire_version))))

abbrev pub policy_action : VersionMismatchPolicy → ℕ → String → VersionMismatchAction
policy_action keep_stale wire_version reason = keep_view wire_version reason
policy_action drop_and_wait wire_version reason = drop_view wire_version reason

unfoldable pub on_deserialize_error : ℕ → VersioningLogic → VersionMismatchAction
on_deserialize_error wire_version l =
    policy_action l.policy wire_version (mismatch_reason wire_version l)

abbrev pub inbound_result :
    {V : Type 0} → VersioningLogic → Result DeserializeError V → InboundVersionResult V
inbound_result l (ok value) = accepted value
inbound_result l (err (unknown_version v)) = version_mismatch (on_deserialize_error v l)
inbound_result l (err (malformed msg)) = malformed_data msg

unfoldable pub on_inbound :
    {V : Type 0}
    → Bytes
    → ℕ
    → (Bytes → ℕ → Result DeserializeError V)
    → VersioningLogic
    → InboundVersionResult V
unfolding on_deserialize_error
on_inbound bytes wire_version deserialize_fn l =
    inbound_result l (deserialize_fn bytes wire_version)

unfoldable pub try_load_with_migration :
    {S : Type 0}
    → Bytes
    → ℕ
    → (Bytes → ℕ → Result DeserializeError S)
    → (Bytes → ℕ → Result DeserializeError S)
    → VersioningLogic
    → Result DeserializeError S
try_load_with_migration bytes stored_version deserialize_fn migrate_fn l =
    if nat_eq stored_version l.current_storage_version
    then deserialize_fn bytes stored_version
    else migrate_fn bytes stored_version

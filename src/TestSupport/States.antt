-- ===== src/TestSupport/States.antt =====
-- The states of dstate/src/test_support/test_state.rs. The encodings of `bincode` are parameters.
use dstate.Base.{ℕ, ◌+◌, ◌%◌, ◌^◌, String, ℤ, as_u64, Option, none, some, nat_eq, if◌then◌else◌}
use dstate.Types.Config.{SyncUrgency}
use dstate.Types.Errors.{Result, ok, err, DeserializeError, unknown_version, malformed}
use dstate.Types.Message.{Bytes}

pub record TestState : Type 0 where
  pub counter : ℕ
  pub label : String

abbrev pub default_state : TestState
default_state = record { counter = 0; label = "" }

-- `map_err(|e| Malformed(e.to_string()))`
abbrev pub or_malformed : {A : Type 0} → Result String A → Result DeserializeError A
or_malformed (ok a) = ok a
or_malformed (err e) = err (malformed e)

-- Every codec of the test states reads its version 1 only.
unfoldable pub read_version_1 :
    {A : Type 0} → (Bytes → Result String A) → Bytes → ℕ → Result DeserializeError A
read_version_1 read bytes version =
    if nat_eq version 1 then or_malformed (read bytes) else err (unknown_version version)

-- The accumulator is an `f64`, of which nothing is asked but its zero.
pub record TestDeltaStateInner (F : Type 0) : Type 0 where
  pub counter : ℕ
  pub label : String
  pub internal_accumulator : F

pub record TestDeltaView : Type 0 where
  pub counter : ℕ
  pub label : String

pub record TestDeltaViewDelta : Type 0 where
  pub counter_delta : ℤ
  pub new_label : Option String

pub record TestDeltaChange (F : Type 0) : Type 0 where
  pub counter_delta : ℤ
  pub new_label : Option String
  pub accumulator_delta : F

module _ {F : Type 0} where
  abbrev pub default_inner : F → TestDeltaStateInner F
  default_inner zero_f64 = record { counter = 0; label = ""; internal_accumulator = zero_f64 }

  unfoldable pub project_view : TestDeltaStateInner F → TestDeltaView
  project_view state = record { counter = state.counter; label = state.label }

  unfoldable pub project_delta : TestDeltaChange F → TestDeltaViewDelta
  project_delta change = record {
    counter_delta = change.counter_delta;
    new_label = change.new_label;
  }

  unfoldable pub sync_urgency : TestDeltaView → TestDeltaView → TestDeltaChange F → SyncUrgency
  sync_urgency old_view new_view change = SyncUrgency.default

abbrev pub label_or : String → Option String → String
label_or label none = label
label_or label (some new_label) = new_label

-- `(view.counter as i64 + delta.counter_delta) as u64`, which wraps around.
unfoldable pub apply_delta : TestDeltaView → TestDeltaViewDelta → TestDeltaView
apply_delta view delta = record {
  counter = (view.counter + as_u64 delta.counter_delta) % 2 ^ 64;
  label = label_or view.label delta.new_label;
}

-- ===== src/Examples/Nodes.antt =====
-- Two nodes that share a counter: `engine_a`, and `engine_b`, which has received a snapshot of it.
use dstate.Base.{ℕ, ◌+◌, ◌≡◌, refl, pos, true, none, some, [], ◌∷◌, nat_eq, if◌then◌else◌}
use dstate.HashMap
use dstate.Types.Config.{StateConfig, PushMode, drop_and_wait}
use dstate.Types.Envelope.{Clock, StateViewObject}
use dstate.Types.Errors.{Result, ok, err, DeserializeError, unknown_version, malformed}
use dstate.Types.Generation
use dstate.Types.Generation.{Generation}
use dstate.Types.Message.{Bytes}
use dstate.Shard.State.{InboundSnapshot, new_state_object}
use dstate.Shard.Membership.{on_node_joined}
use dstate.Shard.Inbound.{accept_inbound_snapshot}
use dstate.Shard.Mutation.{update_own_view}
use dstate.Lifecycle.{should_accept_from, is_departed}
use dstate.Engine.State
use dstate.Engine.State.{Engine, InboundDeltaApplierFn}
use dstate.Engine.Valid.{new-IsValid, on_node_joined-IsValid, accept_inbound_snapshot-IsValid}
use dstate.Engine.Keeps.{WellFormed}

abbrev pub clock_1 : Clock
clock_1 = record { now = 5; unix_ms = pos 1000 }

abbrev pub clock_2 : Clock
clock_2 = record { now = 50; unix_ms = pos 2000 }

-- A counter is written as one number, in wire version 1.
abbrev pub write_counter : ℕ → Bytes
write_counter n = n ∷ []

abbrev pub read_one : Bytes → Result DeserializeError ℕ
read_one (n ∷ []) = ok n
read_one _ = err (malformed "length")

abbrev pub read_counter : Bytes → ℕ → Result DeserializeError ℕ
read_counter bytes w = if nat_eq w 1 then read_one bytes else err (unknown_version w)

-- A delta is the number to add.
abbrev pub add_one : Bytes → ℕ → Result DeserializeError ℕ
add_one (n ∷ []) old = ok (old + n)
add_one _ old = err (malformed "length")

abbrev pub add_counter : Bytes → ℕ → ℕ → Result DeserializeError ℕ
add_counter bytes w old = add_one bytes old

abbrev pub config : StateConfig
config = record {
  sync_strategy = record {
    push_mode = some PushMode.active_push;
    periodic_full_sync = none;
    pull_on_query = true;
    change_feed = record { batch_interval = 10 };
  };
  pull_timeout = 100;
  version_mismatch_policy = drop_and_wait;
}

abbrev pub engine_a : Engine ℕ ℕ
engine_a =
    State.new "counter" "a" 7 (λ n. n) config 1 clock_1 write_counter read_counter
      (some add_counter)

abbrev pub lone_b : Engine ℕ ℕ
lone_b =
    State.new "counter" "b" 3 (λ n. n) config 1 clock_1 write_counter read_counter
      (some add_counter)

abbrev pub generation_a : Generation
generation_a = Generation.new 1000 0

abbrev pub snapshot_a : InboundSnapshot ℕ
snapshot_a = record {
  source = "a";
  generation = generation_a;
  wire_version = 1;
  view = 7;
  created_time = pos 1000;
  modified_time = pos 1000;
}

abbrev pub engine_b : Engine ℕ ℕ
engine_b = record lone_b {
  shard =
      (accept_inbound_snapshot clock_2 snapshot_a (on_node_joined clock_2 "a" 0 lone_b.shard)).0;
}

abbrev pub held_of_a : StateViewObject ℕ
held_of_a = record {
  generation = generation_a;
  wire_version = 1;
  value = 7;
  created_time = pos 1000;
  modified_time = pos 1000;
  synced_at = 50;
  pending_remote_generation = none;
  source_node = "a";
}

-- `engine_a` two mutations later.
abbrev pub later_a : Engine ℕ ℕ
later_a = record engine_a {
  shard = update_own_view clock_2 9 (record (engine_a.shard) {
    state = record (engine_a.shard.state) { generation = Generation.new 1000 2; value = 9 };
  });
}

pub engine_a-WellFormed : WellFormed engine_a
unfolding State.new new_state_object
engine_a-WellFormed = new-IsValid _ "a" _ _ clock_1

pub accepts_a : should_accept_from "a" lone_b.lifecycle ≡ true
unfolding State.new should_accept_from is_departed HashMap.contains_key HashMap.get
accepts_a = refl

pub engine_b-WellFormed : WellFormed engine_b
unfolding State.new new_state_object
engine_b-WellFormed =
    accept_inbound_snapshot-IsValid lone_b.lifecycle clock_2 snapshot_a _ accepts_a (
      on_node_joined-IsValid lone_b.lifecycle clock_2 "a" 0 _ accepts_a
        (new-IsValid lone_b.lifecycle "b" _ _ clock_1))

-- ===== src/Integration/TestCluster.antt =====
-- `with_test_state` of dstate-integration/src/cluster.rs: a cluster of nodes "0", "1", and so on.
use dstate.Base.{ℕ, zero, suc, ◌*◌, ◌^◌, String, pos, Option, none, some}
use dstate.Types.Config.{StateConfig}
use dstate.Types.Errors.{Result, decimal}
use dstate.Types.Message.{Bytes, WireMessage}
use dstate.Engine.State
use dstate.Engine.State.{Engine}
use dstate.TestSupport.Clock.{TestClock, with_base_unix_ms, reading}
use dstate.TestSupport.States.{TestState, default_state, read_version_1}
use dstate.Integration.Cluster as Cluster
use dstate.Integration.Cluster.{MockCluster}
use dstate.Integration.Tick.{and_then, add_node}

module _ (serialize : WireMessage → Bytes) (write_state : TestState → Bytes)
    (read_state : Bytes → Result String TestState) where
  unfoldable pub test_engine : ℕ → StateConfig → TestClock → Engine TestState TestState
  unfolding State.new decimal read_version_1
  test_engine i config clock =
      State.new "test_state" (decimal i) default_state (λ s. s) config 1 (reading clock) write_state
        (read_version_1 read_state) none

  -- The nodes below `n` have been added.
  unfoldable pub add_test_nodes :
      ℕ
      → StateConfig
      → TestClock
      → MockCluster TestState TestState
      → Option (MockCluster TestState TestState)
  unfolding test_engine add_node
  add_test_nodes zero config clock cluster = some cluster
  add_test_nodes (suc n) config clock cluster =
      and_then (add_test_nodes n config clock cluster)
        (add_node serialize (test_engine n config clock) default_state)

  -- `start_instant` is the real time at the start.
  unfoldable pub with_test_state : ℕ → ℕ → StateConfig → Option (MockCluster TestState TestState)
  unfolding add_test_nodes with_base_unix_ms Cluster.new
  with_test_state start_instant n config =
      let clock = with_base_unix_ms start_instant (pos 1000000) in
      add_test_nodes n config clock (Cluster.new clock (100 * 10 ^ 6) 42)

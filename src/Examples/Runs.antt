-- ===== src/Examples/Runs.antt =====
-- Runs of the two nodes, and the theorems on runs applied to them.
use dstate.Base.{
  ℕ, String, suc, ◌+◌, ◌%◌, ◌^◌, ◌≡◌, ◌≢◌, refl, false, none, some, List, [], ◌∷◌, inl, arith, ap,
  ◌∙◌, ◌==◌, eq_iff,
}
use dstate.Types.Config.{SyncUrgency}
use dstate.Types.Envelope.{NodeId}
use dstate.Types.Errors.{Result, ok}
use dstate.Types.Generation
use dstate.Types.Generation.{Generation}
use dstate.Types.Message.{full_snapshot, delta_update, request_snapshot, sync, feed}
use dstate.ViewMap.Each.{Each, Each-new, some_injective}
use dstate.Shard.State as ShardState
use dstate.Shard.State.{new_state_object, get_view}
use dstate.Shard.Membership.{on_node_joined}
use dstate.Shard.Inbound.{accept_inbound_snapshot}
use dstate.Engine.State
use dstate.Engine.State.{Engine, InboundDeltaApplierFn}
use dstate.Engine.Keeps.{WellFormed}
use dstate.Engine.Valid.{new-IsValid}
use dstate.Engine.Events.{Event, mutates, receives, flushes, joins, leaves, syncs, run}
use dstate.Engine.Invariant.{run-WellFormed}
use dstate.Replica.Consistency.{IsTrue, Follows}
use dstate.Replica.History.{run-IsTrue, AllHonest}
use dstate.Replica.Gone.{run-stays_gone, NoneRejoined}
use dstate.Examples.Nodes.{clock_1, clock_2, engine_b, lone_b, engine_b-WellFormed}

-- The counter of `a` at age `n`, a `u64`, is 7 + n.
abbrev Counted : NodeId → Generation → ℕ → Type 0
Counted j g v = v ≡ 7 + g.age % 2 ^ 64

-- A late snapshot, one that arrives twice, a join, a mutation, a feed and a departure.
abbrev events : List (Event ℕ ℕ ℕ ℕ)
events =
    receives clock_1 (sync (full_snapshot "counter" "a" (Generation.new 1000 3) 1 (10 ∷ [])))
    ∷ receives clock_2 (sync (full_snapshot "counter" "a" (Generation.new 1000 2) 1 (9 ∷ [])))
    ∷ receives clock_2 (sync (full_snapshot "counter" "a" (Generation.new 1000 3) 1 (10 ∷ [])))
    ∷ joins clock_2 "c" 0
    ∷ mutates clock_2 suc (λ n. n) SyncUrgency.immediate
    ∷ receives clock_2 (sync (request_snapshot "counter" "a"))
    ∷ receives clock_2 (feed (record { source_node = "a"; notifications = [] }))
    ∷ flushes
    ∷ syncs
    ∷ leaves "c"
    ∷ []

run-WellFormed_example :
    (r : Engine ℕ ℕ) × (run events engine_b ≡ some r)
    × WellFormed r
    × (r.shard.node_id ≡ engine_b.shard.node_id)
run-WellFormed_example = run-WellFormed events engine_b engine_b-WellFormed

-- A snapshot at age 3, the same again, the delta of age 4 and a departure.
abbrev told : List (Event ℕ ℕ ℕ ℕ)
told =
    joins clock_1 "a" 0
    ∷ receives clock_1 (sync (full_snapshot "counter" "a" (Generation.new 1000 3) 1 (10 ∷ [])))
    ∷ receives clock_2 (sync (full_snapshot "counter" "a" (Generation.new 1000 3) 1 (10 ∷ [])))
    ∷ receives clock_2 (sync (delta_update "counter" "a" (Generation.new 1000 4) 1 (1 ∷ [])))
    ∷ leaves "c"
    ∷ []

ok_injective : {E : Type 0} (m n : ℕ) (r : Result E ℕ) → r ≡ ok m → r ≡ ok n → m ≡ n
ok_injective m n r d e = cc

differ : (x y : String) → (x == y) ≡ false → x ≢ y
differ x y e same = ground (arith, eq_iff x y)

lone_b-WellFormed : WellFormed lone_b
unfolding State.new new_state_object
lone_b-WellFormed = new-IsValid lone_b.lifecycle "b" _ _ clock_1

lone_b-IsTrue : Each (IsTrue Counted lone_b.shard.node_id) lone_b.shard.views
unfolding State.new ShardState.new
lone_b-IsTrue = Each-new "b" _ (inl refl)

snapshot_counted :
    (v : ℕ) → lone_b.deserialize_view (10 ∷ []) 1 ≡ ok v → Counted "a" (Generation.new 1000 3) v
unfolding State.new
snapshot_counted v e = cc

delta_counted :
    (applier : InboundDeltaApplierFn ℕ) (old : Generation) (v v' : ℕ)
    → lone_b.inbound_delta_applier ≡ some applier
    → Follows (Generation.new 1000 4) old
    → Counted "a" old v
    → applier (1 ∷ []) 1 v ≡ ok v'
    → Counted "a" (Generation.new 1000 4) v'
unfolding State.new
delta_counted applier old v v' same (inc, age) counted made =
    let sum =
      ok_injective (v + 1) v' _ refl
        (ap (λ (f : InboundDeltaApplierFn ℕ). f (1 ∷ []) 1 v) (some_injective same) ∙ made) in
    omega (arith, sum, counted, age)

told-AllHonest : AllHonest Counted lone_b told
told-AllHonest =
    (tt, (snapshot_counted, (snapshot_counted, ((omega arith, delta_counted), (tt, tt)))))

run-IsTrue_example :
    (r : Engine ℕ ℕ) × (run told lone_b ≡ some r)
    × Each (IsTrue Counted r.shard.node_id) r.shard.views
run-IsTrue_example = run-IsTrue Counted told lone_b lone_b-WellFormed lone_b-IsTrue told-AllHonest

events-NoneRejoined : NoneRejoined "a" events
events-NoneRejoined =
    (tt, (tt, (tt, (differ "c" "a" refl, (tt, (tt, (tt, (tt, (tt, (tt, tt))))))))))

a_is_not_b : "a" ≢ engine_b.shard.node_id
unfolding State.new ShardState.new accept_inbound_snapshot on_node_joined
a_is_not_b = differ "a" "b" refl

run-stays_gone_example :
    (r : Engine ℕ ℕ) × (run (leaves "a" ∷ events) engine_b ≡ some r) × (get_view "a" r.shard ≡ none)
run-stays_gone_example =
    run-stays_gone "a" events engine_b a_is_not_b engine_b-WellFormed events-NoneRejoined

-- ===== src/Examples/Actors.antt =====
-- An actor of the node "b" with two peers, and the theorems on its life applied.
use dstate.HashMap
use dstate.Types.Generation
use dstate.Types.Generation.{gt, cmp}
use dstate.Shard.State.{new_state_object}
use dstate.Lifecycle.{should_accept_from, is_departed}
use dstate.Engine.State
use dstate.Laws.Recovery.{Holds}
use dstate.Actor.Delivery.{mutate-handle}
use dstate.Actor.Handlers.{handle}
use dstate.Examples.Exchanges.{engine_b-holds}
use dstate.Base.{ℕ, String, ◌+◌, ◌≡◌, ◌≢◌, refl, false, false≢true, some, List, [], ◌∷◌, In, eq_iff}
use dstate.Types.Config.{SyncUrgency}
use dstate.Types.Envelope.{NodeId}
use dstate.Types.Message.{SyncMessage, request_snapshot}
use dstate.Engine.Events.{run}
use dstate.Engine.Keeps.{WellFormed}
use dstate.Actor.Messages.{
  inbound_sync, node_left, mutate_message, query_views, cluster_change, periodic_sync_message,
  flush_change_feed_message,
}
use dstate.Actor.Routing.{StateActor, SenderCall, sends_sync, Effects, no_effects, create}
use dstate.Actor.Life.{Input, World, handles, registers, wakes, stops, live, events_of}
use dstate.Actor.Refines.{live-run}
use dstate.Actor.Recipients.{AllTo}
use dstate.Actor.Safety.{Elsewhere, left-unsent, stopped-silent}
use dstate.Examples.Nodes.{
  clock_1, clock_2, engine_a, engine_b, held_of_a, engine_a-WellFormed, engine_b-WellFormed,
}

-- A sender is the node that it sends to.
abbrev world_b : World ℕ ℕ String
world_b = record {
  actor = record { engine = engine_b; peers = ("a", "a") ∷ ("c", "c") ∷ []; cancel_token = false };
  sleeping = [];
}

abbrev later_inputs : List (Input ℕ ℕ String)
later_inputs =
    handles clock_2 (mutate_message (λ n. n + 1) (λ n. n) (SyncUrgency.delayed 5))
    ∷ registers "d" "d"
    ∷ handles clock_2 periodic_sync_message
    ∷ handles clock_2 (query_views 10)
    ∷ wakes 0
    ∷ handles clock_2 flush_change_feed_message
    ∷ []

live-run_example :
    (w' : World ℕ ℕ String) × (calls : List (SenderCall String)) × (live later_inputs world_b
      ≡ some (w', calls))
    × (run (events_of later_inputs) engine_b ≡ some w'.actor.engine)
    × WellFormed w'.actor.engine
live-run_example = live-run later_inputs world_b engine_b-WellFormed

abbrev node_a : NodeId
node_a = "a"

abbrev node_b : NodeId
node_b = "b"

abbrev node_d : NodeId
node_d = "d"

d_is_not_a : node_d ≢ node_a
d_is_not_a e = false≢true ((eq_iff node_d node_a).1 e)

left-unsent_example :
    (w' : World ℕ ℕ String) × (calls : List (SenderCall String)) × (live
        (handles clock_1 (cluster_change (node_left "a")) ∷ later_inputs)
        world_b
      ≡ some (w', calls))
    × AllTo (Elsewhere (λ p. p) engine_b.shard.node_id "a") calls
left-unsent_example =
    left-unsent (λ p. p) clock_1 "a" later_inputs world_b engine_b-WellFormed (refl, (refl, tt)) tt
      (refl, d_is_not_a, tt)

abbrev after_stop : List (Input ℕ ℕ String)
after_stop = wakes 0 ∷ registers "d" "d" ∷ wakes 0 ∷ []

-- The actor has a task that sleeps.
abbrev sleeping_b : World ℕ ℕ String
sleeping_b = record world_b {
  sleeping =
      record { delay = 5; message = request_snapshot "counter" "b"; own_id_clone = "b" } ∷ [];
}

stopped-silent_example :
    (w' : World ℕ ℕ String) × (live (stops ∷ after_stop) sleeping_b ≡ some (w', []))
stopped-silent_example = stopped-silent after_stop sleeping_b tt

abbrev actor_a : StateActor ℕ ℕ String
actor_a = create engine_a (("c", "c") ∷ ("b", "b") ∷ [])

b_is_not_a : node_b ≢ node_a
b_is_not_a e = false≢true ((eq_iff node_b node_a).1 e)

mutate-handle_example :
    (msg : SyncMessage) × (a' : StateActor ℕ ℕ String) × (sent : Effects String) × (b' : StateActor
      ℕ ℕ String)
    × (handle clock_1 (mutate_message (λ n. n + 1) (λ n. n) SyncUrgency.immediate) actor_a
        ≡ some (a', sent))
    × In (sends_sync "b" msg) sent.calls
    × (handle clock_2 (inbound_sync msg) world_b.actor ≡ some (b', no_effects))
    × Holds "a" (Generation.new 1000 1) 8 b'.engine
unfolding State.new new_state_object HashMap.get should_accept_from is_departed HashMap.contains_key
    gt cmp create
mutate-handle_example =
    mutate-handle clock_1 clock_2 (λ n. n + 1) (λ n. n) "b" "b" actor_a world_b.actor held_of_a
      engine_a-WellFormed refl b_is_not_a refl refl engine_b-holds refl refl

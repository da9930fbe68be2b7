-- ===== src/Actor/Life.antt =====
-- The life of a `StateActor` among other tasks: the actor handles messages, others register senders
-- in the shared registry, the sleeps of spawned tasks end in any order, and the actor stops.
use dstate.Base.{ℕ, zero, suc, Option, none, some, List, [], ◌∷◌, ◌++◌}
use dstate.HashMap
use dstate.Types.Envelope.{NodeId, Clock}
use dstate.Engine.Events.{Event, mutates, receives, flushes, joins, leaves, syncs}
use dstate.Types.Message.{sync}
use dstate.Actor.Messages.{
  node_joined, node_left, ActorMessage, mutate_message, inbound_sync, inbound_wire, cluster_change,
  periodic_sync_message, flush_change_feed_message,
}
use dstate.Actor.Routing.{StateActor, DelayedTask, Effects, SenderCall, fire}
use dstate.Actor.Handlers.{handle, on_stop}

-- `wakes n` ends the sleep of the task at position `n` of those that wait.
pub data Input (S V P : Type 0) : Type 0 where
  handles : Clock → ActorMessage S V → Input S V P
  registers : NodeId → P → Input S V P
  unregisters : NodeId → Input S V P
  wakes : ℕ → Input S V P
  stops : Input S V P

pub record World (S V P : Type 0) : Type 0 where
  pub actor : StateActor S V P
  pub sleeping : List DelayedTask

-- The task at a position, and the others.
abbrev pub take_task : ℕ → List DelayedTask → Option DelayedTask × List DelayedTask
take_task n [] = (none, [])
take_task zero (task ∷ tasks) = (some task, tasks)
take_task (suc n) (task ∷ tasks) = let rest = take_task n tasks in (rest.0, task ∷ rest.1)

module _ {S V P : Type 0} where
  abbrev pub woken : Option DelayedTask → StateActor S V P → List (SenderCall P)
  woken none a = []
  woken (some task) a = fire a.cancel_token a.peers task

  abbrev pub handled :
      List DelayedTask
      → Option (StateActor S V P × Effects P)
      → Option (World S V P × List (SenderCall P))
  handled tasks none = none
  handled tasks (some r) = some (record { actor = r.0; sleeping = tasks ++ r.1.spawned }, r.1.calls)

  unfoldable pub step : Input S V P → World S V P → Option (World S V P × List (SenderCall P))
  unfolding handle fire on_stop HashMap.insert HashMap.remove
  step (handles clock msg) w = handled w.sleeping (handle clock msg w.actor)
  step (registers node_id sender) w = some (
    record w { actor = record (w.actor) { peers = HashMap.insert node_id sender w.actor.peers } },
    [],
  )
  step (unregisters node_id) w =
      some
        (record w { actor = record (w.actor) { peers = HashMap.remove node_id w.actor.peers } }, [])
  step (wakes n) w =
      let taken = take_task n w.sleeping in
      some (record w { sleeping = taken.1 }, woken taken.0 w.actor)
  step stops w = some (record w { actor = on_stop w.actor }, [])

  -- The calls of a later part of a life, after those of the first.
  abbrev pub then_calls :
      List (SenderCall P)
      → Option (World S V P × List (SenderCall P))
      → Option (World S V P × List (SenderCall P))
  then_calls calls none = none
  then_calls calls (some r) = some (r.0, calls ++ r.1)

  abbrev pub onward :
      (World S V P → Option (World S V P × List (SenderCall P)))
      → Option (World S V P × List (SenderCall P))
      → Option (World S V P × List (SenderCall P))
  onward rest none = none
  onward rest (some r) = then_calls r.1 (rest r.0)

  -- The world after a list of inputs and every call on a sender, in order.
  unfoldable pub live :
      List (Input S V P) → World S V P → Option (World S V P × List (SenderCall P))
  live [] w = some (w, [])
  live (input ∷ inputs) w = onward (live inputs) (step input w)

  -- The call of the engine that an input makes.
  abbrev pub event_of : Input S V P → List (Event S V Unit Unit)
  event_of (handles clock (mutate_message f p urgency)) = mutates clock f p urgency ∷ []
  event_of (handles clock (inbound_sync message)) = receives clock (sync message) ∷ []
  event_of (handles clock (inbound_wire message)) = receives clock message ∷ []
  event_of (handles clock (cluster_change (node_joined n v))) = joins clock n v ∷ []
  event_of (handles clock (cluster_change (node_left n))) = leaves n ∷ []
  event_of (handles clock periodic_sync_message) = syncs ∷ []
  event_of (handles clock flush_change_feed_message) = flushes ∷ []
  event_of _ = []

  abbrev pub events_of : List (Input S V P) → List (Event S V Unit Unit)
  events_of [] = []
  events_of (input ∷ inputs) = event_of input ++ events_of inputs

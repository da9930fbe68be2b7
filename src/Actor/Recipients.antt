-- ===== src/Actor/Recipients.antt =====
-- To whom a `StateActor` sends: never to itself, never to a node that has left and has no sender
-- since, and to nobody from a task that wakes after the stop.
use dstate.Base.{
  ◌≡◌, ◌≢◌, refl, Bool, true, false, Option, none, some, List, [], ◌∷◌, ◌++◌, arith, map, eq_iff,
}
use dstate.HashMap
use dstate.HashMap.{HashMap}
use dstate.Types.Envelope.{NodeId}
use dstate.Types.Message.{SyncMessage, BatchedChangeFeed, feed}
use dstate.Engine.State.{EngineAction, broadcast_sync, send_sync, schedule_delayed}
use dstate.Actor.Handlers.{feed_calls}
use dstate.Actor.Routing.{
  PeerRegistry, StateActor, DelayedTask, SenderCall, sends_sync, sends_wire, other_senders,
  find_sender, sync_all, sync_one, route_action, route_each, route_actions, fire,
}

-- The tasks were spawned by the node `own`.
abbrev pub TasksOf : NodeId → List DelayedTask → Type 0
TasksOf own [] = Unit
TasksOf own (task ∷ tasks) = (task.own_id_clone ≡ own) × TasksOf own tasks

pub TasksOf-append :
    (own : NodeId) (xs ys : List DelayedTask)
    → TasksOf own xs
    → TasksOf own ys
    → TasksOf own (xs ++ ys)
TasksOf-append own [] ys a b = b
TasksOf-append own (x ∷ xs) ys a b = (a.0, TasksOf-append own xs ys a.1 b)

route_each-TasksOf :
    {P : Type 0} (own : NodeId) (senders : List (NodeId × P)) (actions : List EngineAction)
    → TasksOf own (route_each own senders actions).spawned
unfolding route_each route_action
route_each-TasksOf own senders [] = tt
route_each-TasksOf own senders (broadcast_sync msg ∷ actions) =
    route_each-TasksOf own senders actions
route_each-TasksOf own senders (send_sync target msg ∷ actions) =
    route_each-TasksOf own senders actions
route_each-TasksOf own senders (schedule_delayed d msg ∷ actions) =
    (refl, route_each-TasksOf own senders actions)

module _ {P : Type 0} where
  -- The sender of a call.
  abbrev pub sender_of : SenderCall P → P
  sender_of (sends_sync p msg) = p
  sender_of (sends_wire p msg) = p

  -- Every call is on a sender that satisfies `Q`.
  abbrev pub AllTo : (P → Type 0) → List (SenderCall P) → Type 0
  AllTo Q [] = Unit
  AllTo Q (call ∷ calls) = Q (sender_of call) × AllTo Q calls

  -- Every sender of the registry but the own one satisfies `Q`.
  abbrev pub OthersIn : (P → Type 0) → NodeId → PeerRegistry P → Type 0
  OthersIn Q own [] = Unit
  OthersIn Q own ((id, p) ∷ peers) = (id ≢ own → Q p) × OthersIn Q own peers

  abbrev AllIn : (P → Type 0) → List (NodeId × P) → Type 0
  AllIn Q [] = Unit
  AllIn Q (entry ∷ rest) = Q entry.1 × AllIn Q rest

  pub AllTo-append :
      (Q : P → Type 0) (xs ys : List (SenderCall P)) → AllTo Q xs → AllTo Q ys → AllTo Q (xs ++ ys)
  AllTo-append Q [] ys a b = b
  AllTo-append Q (x ∷ xs) ys a b = (a.0, AllTo-append Q xs ys a.1 b)

  other_senders-AllIn :
      (Q : P → Type 0) (own : NodeId) (peers : PeerRegistry P)
      → OthersIn Q own peers
      → AllIn Q (other_senders own peers)
  unfolding other_senders
  other_senders-AllIn Q own [] h = tt
  other_senders-AllIn Q own ((id, p) ∷ peers) h =
      ground (arith, eq_iff id own, other_senders-AllIn Q own peers)

  sync_all-AllTo :
      (Q : P → Type 0) (msg : SyncMessage) (senders : List (NodeId × P))
      → AllIn Q senders
      → AllTo Q (sync_all msg senders)
  sync_all-AllTo Q msg [] h = tt
  sync_all-AllTo Q msg (s ∷ senders) h = (h.0, sync_all-AllTo Q msg senders h.1)

  wire_all-AllTo :
      (Q : P → Type 0) (batch : BatchedChangeFeed) (senders : List (NodeId × P))
      → AllIn Q senders
      → AllTo Q (map (λ entry. sends_wire entry.1 (feed batch)) senders)
  wire_all-AllTo Q batch [] h = tt
  wire_all-AllTo Q batch (s ∷ senders) h = (h.0, wire_all-AllTo Q batch senders h.1)

  sync_one-AllTo :
      (Q : P → Type 0) (msg : SyncMessage) (target : NodeId) (senders : List (NodeId × P))
      → AllIn Q senders
      → AllTo Q (sync_one msg (find_sender target senders))
  unfolding find_sender
  sync_one-AllTo Q msg target [] h = tt
  sync_one-AllTo Q msg target ((id, p) ∷ senders) h =
      ground (arith, sync_one-AllTo Q msg target senders)

  route_each-AllTo :
      (Q : P → Type 0) (own : NodeId) (senders : List (NodeId × P)) (actions : List EngineAction)
      → AllIn Q senders
      → AllTo Q (route_each own senders actions).calls
  unfolding route_each route_action
  route_each-AllTo Q own senders [] h = tt
  route_each-AllTo Q own senders (broadcast_sync msg ∷ actions) h =
      AllTo-append Q _ _ (sync_all-AllTo Q msg senders h) (route_each-AllTo Q own senders actions h)
  route_each-AllTo Q own senders (send_sync target msg ∷ actions) h =
      AllTo-append Q _ _ (sync_one-AllTo Q msg target senders h)
        (route_each-AllTo Q own senders actions h)
  route_each-AllTo Q own senders (schedule_delayed d msg ∷ actions) h =
      route_each-AllTo Q own senders actions h

  pub fire-AllTo :
      (Q : P → Type 0) (cancelled : Bool) (peers : PeerRegistry P) (task : DelayedTask)
      → OthersIn Q task.own_id_clone peers
      → AllTo Q (fire cancelled peers task)
  unfolding fire
  fire-AllTo Q true peers task h = tt
  fire-AllTo Q false peers task h =
      sync_all-AllTo Q task.message _ (other_senders-AllIn Q task.own_id_clone peers h)

  pub OthersIn-insert :
      (Q : P → Type 0) (own id : NodeId) (p : P) (peers : PeerRegistry P)
      → (id ≢ own → Q p)
      → OthersIn Q own peers
      → OthersIn Q own (HashMap.insert id p peers)
  unfolding HashMap.insert
  OthersIn-insert Q own id p [] q h = (q, tt)
  OthersIn-insert Q own id p ((j, r) ∷ peers) q h =
      ground (arith, eq_iff j id, OthersIn-insert Q own id p peers q h.1)

  pub OthersIn-remove :
      (Q : P → Type 0) (own id : NodeId) (peers : PeerRegistry P)
      → OthersIn Q own peers
      → OthersIn Q own (HashMap.remove id peers)
  unfolding HashMap.remove
  OthersIn-remove Q own id [] h = tt
  OthersIn-remove Q own id ((j, r) ∷ peers) h = ground (arith, OthersIn-remove Q own id peers h.1)

module _ {S V P : Type 0} where
  pub route_actions-TasksOf :
      (actions : List EngineAction) (a : StateActor S V P)
      → TasksOf a.engine.shard.node_id (route_actions actions a).spawned
  unfolding route_actions
  route_actions-TasksOf actions a = route_each-TasksOf _ _ actions

  -- The calls of a flush.
  pub feed_calls-AllTo :
      (Q : P → Type 0) (o : Option BatchedChangeFeed) (a : StateActor S V P)
      → OthersIn Q a.engine.shard.node_id a.peers
      → AllTo Q (feed_calls o a)
  feed_calls-AllTo Q none a h = tt
  feed_calls-AllTo Q (some batch) a h = wire_all-AllTo Q batch _ (other_senders-AllIn Q _ a.peers h)

  pub route_actions-AllTo :
      (Q : P → Type 0) (actions : List EngineAction) (a : StateActor S V P)
      → OthersIn Q a.engine.shard.node_id a.peers
      → AllTo Q (route_actions actions a).calls
  unfolding route_actions
  route_actions-AllTo Q actions a h =
      route_each-AllTo Q _ _ actions (other_senders-AllIn Q _ a.peers h)

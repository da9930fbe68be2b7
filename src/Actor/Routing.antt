-- ===== src/Actor/Routing.antt =====
-- The state of the actor and `route_actions`, in dstate-dactor/src/state_actor.rs. A `PeerSender` is
-- any type `P`: what a handler sends is the list of calls on such senders.
use dstate.Base.{
  Bool, false, not, Option, none, some, List, [], ◌∷◌, ◌++◌, map, filter, ◌==◌, if◌then◌else◌,
}
use dstate.HashMap.{HashMap}
use dstate.Types.Config.{Duration}
use dstate.Types.Envelope.{NodeId}
use dstate.Types.Message.{SyncMessage, WireMessage}
use dstate.Engine.State.{Engine, EngineAction, broadcast_sync, send_sync, schedule_delayed}

abbrev pub PeerRegistry : Type 0 → Type 0
PeerRegistry P = HashMap P

-- A `CancellationToken` is whether it is cancelled.
pub record StateActor (S V P : Type 0) : Type 0 where
  pub engine : Engine S V
  pub peers : PeerRegistry P
  pub cancel_token : Bool

-- The task that `ScheduleDelayed` spawns: what it captured.
pub record DelayedTask : Type 0 where
  pub delay : Duration
  pub message : SyncMessage
  pub own_id_clone : NodeId

-- A call of a method of a `PeerSender`.
pub data SenderCall (P : Type 0) : Type 0 where
  sends_sync : P → SyncMessage → SenderCall P
  sends_wire : P → WireMessage → SenderCall P

-- What a handler does beside changing the actor: the calls, and the tasks that it spawns.
pub record Effects (P : Type 0) : Type 0 where
  pub calls : List (SenderCall P)
  pub spawned : List DelayedTask

module _ {P : Type 0} where
  abbrev pub no_effects : Effects P
  no_effects = record { calls = []; spawned = [] }

  abbrev pub also : Effects P → Effects P → Effects P
  also a b = record { calls = a.calls ++ b.calls; spawned = a.spawned ++ b.spawned }

  -- The senders of the registry but the one of the actor itself.
  unfoldable pub other_senders : NodeId → PeerRegistry P → List (NodeId × P)
  other_senders own_id peers = filter (λ entry. not (entry.0 == own_id)) peers

  -- `senders.iter().find(|(id, _)| *id == target)`
  unfoldable pub find_sender : NodeId → List (NodeId × P) → Option P
  find_sender target [] = none
  find_sender target ((id, sender) ∷ senders) =
      let rest = find_sender target senders in if id == target then some sender else rest

  abbrev pub sync_all : SyncMessage → List (NodeId × P) → List (SenderCall P)
  sync_all msg senders = map (λ entry. sends_sync entry.1 msg) senders

  abbrev pub sync_one : SyncMessage → Option P → List (SenderCall P)
  sync_one msg none = []
  sync_one msg (some sender) = sends_sync sender msg ∷ []

  -- One round of the loop of `route_actions`.
  unfoldable pub route_action : NodeId → List (NodeId × P) → EngineAction → Effects P
  unfolding find_sender
  route_action own_id senders (broadcast_sync msg) = record {
    calls = sync_all msg senders;
    spawned = [];
  }
  route_action own_id senders (send_sync target message) = record {
    calls = sync_one message (find_sender target senders);
    spawned = [];
  }
  route_action own_id senders (schedule_delayed delay message) = record {
    calls = [];
    spawned = record { delay = delay; message = message; own_id_clone = own_id } ∷ [];
  }

  unfoldable pub route_each : NodeId → List (NodeId × P) → List EngineAction → Effects P
  unfolding route_action
  route_each own_id senders [] = no_effects
  route_each own_id senders (action ∷ actions) =
      also (route_action own_id senders action) (route_each own_id senders actions)

  -- What the task of a `ScheduleDelayed` does when its sleep is over, if the token is not cancelled.
  unfoldable pub fire : Bool → PeerRegistry P → DelayedTask → List (SenderCall P)
  unfolding other_senders
  fire cancelled peers task =
      if cancelled then [] else sync_all task.message (other_senders task.own_id_clone peers)

module _ {S V P : Type 0} where
  unfoldable pub create : Engine S V → PeerRegistry P → StateActor S V P
  create engine peers = record { engine = engine; peers = peers; cancel_token = false }

  unfoldable pub route_actions : List EngineAction → StateActor S V P → Effects P
  unfolding other_senders route_each
  route_actions actions a =
      let own_id = a.engine.shard.node_id in
      route_each own_id (other_senders own_id a.peers) actions

-- ===== src/Actor/Messages.antt =====
-- The messages of dstate-dactor/src/messages.rs.
use dstate.Types.Config.{Duration, SyncUrgency}
use dstate.Types.Envelope.{NodeId, StateViewObject}
use dstate.Types.Message.{SyncMessage, WireMessage}
use dstate.HashMap.{HashMap}
use dstate.Engine.State.{EngineQueryResult}

pub data ClusterChange (V : Type 0) : Type 0 where
  node_joined : NodeId → V → ClusterChange V
  node_left : NodeId → ClusterChange V

-- One constructor for each message type; the two closures of a `Mutate` are its functions.
pub data ActorMessage (S V : Type 0) : Type 0 where
  mutate_message : (S → S) → (S → V) → SyncUrgency → ActorMessage S V
  inbound_sync : SyncMessage → ActorMessage S V
  inbound_wire : WireMessage → ActorMessage S V
  query_views : Duration → ActorMessage S V
  cluster_change : ClusterChange V → ActorMessage S V
  periodic_sync_message : ActorMessage S V
  flush_change_feed_message : ActorMessage S V

pub record QueryReply (V : Type 0) : Type 0 where
  pub views : HashMap (StateViewObject V)
  pub result : EngineQueryResult Unit

-- ===== src/Types/Message.antt =====
-- dstate/src/types/sync_message.rs, and `WireMessage` of dstate/src/engine.rs.
use dstate.Base.{ℕ, String, List}
use dstate.Types.Envelope.{NodeId}
use dstate.Types.Generation.{Generation}

-- `Vec<u8>`
abbrev pub Bytes : Type 0
Bytes = List ℕ

-- The fields stand in the order of the source: state name, source node, generation, wire version
-- and data; state name and requester.
pub data SyncMessage : Type 0 where
  full_snapshot : String → NodeId → Generation → ℕ → Bytes → SyncMessage
  delta_update : String → NodeId → Generation → ℕ → Bytes → SyncMessage
  request_snapshot : String → NodeId → SyncMessage

pub record ChangeNotification : Type 0 where
  pub state_name : String
  pub source_node : NodeId
  pub generation : Generation

pub record BatchedChangeFeed : Type 0 where
  pub source_node : NodeId
  pub notifications : List ChangeNotification

pub data WireMessage : Type 0 where
  sync : SyncMessage → WireMessage
  feed : BatchedChangeFeed → WireMessage

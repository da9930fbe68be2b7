-- ===== src/Types/Envelope.antt =====
-- dstate/src/types/envelope.rs, and what an operation reads from the `Clock` of traits/clock.rs.
use dstate.Base.{ℕ, ℤ, Option, String}
use dstate.Types.Config.{Instant}
use dstate.Types.Generation.{Generation}

-- `dactor::NodeId`, which types/node.rs says is a `String` inside.
abbrev pub NodeId : Type 0
NodeId = String

-- One reading of a `Clock`: an operation reads each of the two at one moment.
pub record Clock : Type 0 where
  pub now : Instant
  pub unix_ms : ℤ

pub record StateObject {ℓ} (S : Type ℓ) : Type ℓ where
  pub generation : Generation
  pub storage_version : ℕ
  pub value : S
  pub created_time : ℤ
  pub modified_time : ℤ

pub record StateViewObject {ℓ} (V : Type ℓ) : Type ℓ where
  pub generation : Generation
  pub wire_version : ℕ
  pub value : V
  pub created_time : ℤ
  pub modified_time : ℤ
  pub synced_at : Instant
  pub pending_remote_generation : Option Generation
  pub source_node : NodeId

-- ===== src/Shard/Frame.antt =====
-- What the operations on the views of a shard leave alone: the node and the state that it owns.
use dstate.Base.{ℕ, ◌≡◌, refl, arith}
use dstate.Types.Envelope.{NodeId, Clock}
use dstate.Types.Generation.{Generation}
use dstate.Shard.State.{ShardCore, InboundSnapshot}
use dstate.Shard.Inbound.{accept_inbound_snapshot, accept_inbound_delta, mark_stale}
use dstate.Shard.Membership.{on_node_joined, on_node_left}
use dstate.Shard.Each.{accept_inbound_delta-cases}

module _ {S V : Type 0} where
  abbrev pub Frame : ShardCore S V → ShardCore S V → Type 0
  Frame s t = (t.node_id ≡ s.node_id) × (t.state ≡ s.state)

  pub accept_inbound_snapshot-Frame :
      (clock : Clock) (snap : InboundSnapshot V) (s : ShardCore S V)
      → Frame s (accept_inbound_snapshot clock snap s).0
  unfolding accept_inbound_snapshot
  accept_inbound_snapshot-Frame clock snap s = (refl, refl)

  pub accept_inbound_delta-Frame :
      (clock : Clock) (source : NodeId) (g : Generation) (w : ℕ) (f : V → V) (s : ShardCore S V)
      → Frame s (accept_inbound_delta clock source g w f s).0
  accept_inbound_delta-Frame clock source g w f s =
      accept_inbound_delta-cases (Frame s) clock source g w f s (refl, refl)
        (λ old e next. (refl, refl))

  pub mark_stale-Frame :
      (source : NodeId) (incarnation age : ℕ) (s : ShardCore S V)
      → Frame s (mark_stale source incarnation age s)
  unfolding mark_stale
  mark_stale-Frame source incarnation age s = (refl, refl)

  pub on_node_joined-Frame :
      (clock : Clock) (n : NodeId) (v : V) (s : ShardCore S V)
      → Frame s (on_node_joined clock n v s)
  unfolding on_node_joined
  on_node_joined-Frame clock n v s = ground arith

  pub on_node_left-Frame : (n : NodeId) (s : ShardCore S V) → Frame s (on_node_left n s)
  unfolding on_node_left
  on_node_left-Frame n s = ground arith

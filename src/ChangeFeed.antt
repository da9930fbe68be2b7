-- ===== src/ChangeFeed.antt =====
-- `ChangeFeedLogic` of dstate/src/core/change_feed_logic.rs: one pending generation for each state
-- name and source node, until the batch is flushed.
use dstate.Base.{
  ℕ, String, ◌&&◌, Option, none, some, List, [], ◌∷◌, map, length, ◌==◌, if◌then◌else◌,
}
use dstate.Types.Envelope.{NodeId}
use dstate.Types.Generation.{Generation, gt}
use dstate.Types.Message.{ChangeNotification, BatchedChangeFeed}

-- `HashMap<(String, NodeId), Generation>`: an entry has the two parts of the key and the value.
pub record ChangeFeedLogic : Type 0 where
  pub node_id : NodeId
  pub pending : List (String × NodeId × Generation)

abbrev pub new : NodeId → ChangeFeedLogic
new node_id = record { node_id = node_id; pending = [] }

-- `entry(key).and_modify(..).or_insert(generation)`
unfoldable pub notify_entry :
    String
    → NodeId
    → Generation
    → List (String × NodeId × Generation)
    → List (String × NodeId × Generation)
unfolding gt
notify_entry name source generation [] = (name, source, generation) ∷ []
notify_entry name source generation ((n, s, existing) ∷ rest) =
    if n == name && s == source
    then (n, s, (if gt generation existing then generation else existing)) ∷ rest
    else (n, s, existing) ∷ notify_entry name source generation rest

unfoldable pub notify_change : String → NodeId → Generation → ChangeFeedLogic → ChangeFeedLogic
notify_change state_name source_node generation c = record c {
  pending = notify_entry state_name source_node generation c.pending;
}

abbrev pub notification : String × NodeId × Generation → ChangeNotification
notification (n, s, g) = record { state_name = n; source_node = s; generation = g }

abbrev pub drained : NodeId → List (String × NodeId × Generation) → Option BatchedChangeFeed
drained node_id [] = none
drained node_id (e ∷ rest) =
    some (record { source_node = node_id; notifications = map notification (e ∷ rest) })

unfoldable pub flush : ChangeFeedLogic → ChangeFeedLogic × Option BatchedChangeFeed
flush c = (record c { pending = [] }, drained c.node_id c.pending)

abbrev pub pending_count : ChangeFeedLogic → ℕ
pending_count c = length c.pending

unfoldable pub route_inbound_batch :
    BatchedChangeFeed → NodeId → List (String × NodeId × Generation)
route_inbound_batch batch self_node_id =
    if batch.source_node == self_node_id
    then []
    else map (λ n. (n.state_name, n.source_node, n.generation)) batch.notifications

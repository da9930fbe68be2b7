-- ===== src/Integration/Purge.antt =====
-- A node that crashes: what `remove_node_hard` leaves of it.
use dstate.Base.{
  ℕ, ◌≡◌, ◌≢◌, refl, ◌∙◌, String, none, List, [], ◌∷◌, filter, arith, eq_iff, eq_refl,
}
use dstate.HashMap
use dstate.HashMap.{HashMap}
use dstate.HashMap.Laws.{get-remove}
use dstate.Types.Envelope.{NodeId}
use dstate.Types.Errors.{Result, ok, err}
use dstate.Types.Message.{Bytes, WireMessage}
use dstate.Integration.Transport.{
  InFlightMessage, DeliveredMessage, CorruptedMessage, DeliveryResult, receive, not_involved,
  split_due, deliver_due, drop_in_flight_for,
}
use dstate.Integration.Cluster.{MockNode, MockCluster, all_left, remove_node_hard}

module _ (n : NodeId) where
  -- No message in flight is from the node or to it.
  abbrev pub NoneInFlight : List InFlightMessage → Type 0
  NoneInFlight [] = Unit
  NoneInFlight (m ∷ messages) = (m.from ≢ n) × (m.to ≢ n) × NoneInFlight messages

  abbrev pub NoneDelivered : List DeliveredMessage → Type 0
  NoneDelivered [] = Unit
  NoneDelivered (m ∷ messages) = (m.from ≢ n) × (m.to ≢ n) × NoneDelivered messages

  abbrev pub NoneCorrupted : List CorruptedMessage → Type 0
  NoneCorrupted [] = Unit
  NoneCorrupted (m ∷ messages) = (m.from ≢ n) × (m.to ≢ n) × NoneCorrupted messages

  dropped : (messages : List InFlightMessage) → NoneInFlight (filter (not_involved n) messages)
  dropped [] = tt
  dropped (m ∷ messages) = ground (arith, eq_iff m.from n, eq_iff m.to n, dropped messages)

  module _ (deserialize : Bytes → Result String WireMessage) where
    received :
        (m : InFlightMessage) (o : Result String WireMessage) (r : DeliveryResult)
        → m.from ≢ n
        → m.to ≢ n
        → NoneDelivered r.delivered × NoneCorrupted r.corrupted
        → NoneDelivered (receive deserialize m o r).delivered
          × NoneCorrupted (receive deserialize m o r).corrupted
    received m (ok message) r f t h = ((f, t, h.0), h.1)
    received m (err e) r f t h = (h.0, (f, t, h.1))

    split :
        (now : ℕ) (messages : List InFlightMessage)
        → NoneInFlight messages
        → (let r = split_due deserialize now messages in
            (NoneDelivered r.0.delivered × NoneCorrupted r.0.corrupted) × NoneInFlight r.1)
    unfolding split_due
    split now [] h = ((tt, tt), tt)
    split now (m ∷ messages) h =
        let rest = split now messages h.2 in
        ground (arith, received m (deserialize m.data_bytes) (split_due deserialize now messages).0)

module _ {S V : Type 0} where
  get-all_left :
      (n k : NodeId) (nodes : HashMap (MockNode S V))
      → HashMap.get k nodes ≡ none
      → HashMap.get k (all_left n nodes) ≡ none
  unfolding all_left HashMap.get
  get-all_left n k [] h = refl
  get-all_left n k ((m, node) ∷ nodes) h = ground (arith, get-all_left n k nodes)

  -- After a hard removal the node is not in the cluster, no message from it or to it is in flight, and
  -- the next delivery has none, neither among the messages that arrive nor among the corrupted
  -- ones, and leaves none in flight.
  pub remove_node_hard-NoneDelivered :
      (deserialize : Bytes → Result String WireMessage) (n : NodeId) (c : MockCluster S V)
      → (let c' = remove_node_hard n c in
          let r = deliver_due deserialize c'.transport in
          (HashMap.get n c'.nodes ≡ none)
          × NoneInFlight n c'.transport.in_flight
          × NoneDelivered n r.1.delivered
          × NoneCorrupted n r.1.corrupted
          × NoneInFlight n r.0.in_flight)
  unfolding remove_node_hard drop_in_flight_for deliver_due
  remove_node_hard-NoneDelivered deserialize n c =
      let gone = get-remove n n c.nodes ∙ rw (eq_refl n) refl in
      let s = split n deserialize c.transport.current_tick _ (dropped n c.transport.in_flight) in
      (get-all_left n n _ gone, dropped n c.transport.in_flight, s.0.0, s.0.1, s.1)

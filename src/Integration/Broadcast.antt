-- ===== src/Integration/Broadcast.antt =====
-- Broadcasts over a network without interceptors, and the purge of a node that crashed.
use dstate.Base.{
  ◌+◌, ◌^◌, ◌<◌, ◌≡◌, refl, String, not, Bool-cases, inl, inr, List, [], ◌∷◌, map, filter, ◌==◌,
}
use dstate.Types.Envelope.{NodeId}
use dstate.Types.Errors.{Result, ok}
use dstate.Types.Message.{Bytes, WireMessage}
use dstate.Integration.Transport.{
  MockTransport, broadcast_bytes, send_bytes, broadcast, send, deliver_due, advance_tick,
}
use dstate.Integration.Delivery.{RoundTrips, Sending, send_each, arrivals, send_each-deliver_due}

-- The recipients of a broadcast: every other node of the list.
abbrev pub others : NodeId → List NodeId → List NodeId
others from ids = filter (λ to. not (to == from)) ids

-- One sending to each node.
abbrev pub copies : NodeId → WireMessage → List NodeId → List Sending
copies from msg ids = map (λ to. record { from = from; to = to; message = msg }) ids

module _ (serialize : WireMessage → Bytes) where
  broadcast-send_each :
      (from : NodeId) (msg : WireMessage) (ids : List NodeId) (t : MockTransport)
      → broadcast_bytes from (serialize msg) ids t
        ≡ send_each serialize (copies from msg (others from ids)) t
  unfolding broadcast_bytes send_each send
  broadcast-send_each from msg [] t = refl
  broadcast-send_each from msg (to ∷ ids) t = elim (Bool-cases (to == from)) [
    | inl own ↦ rw own (broadcast-send_each from msg ids t)
    | inr other ↦ rw other (broadcast-send_each from msg ids (send_bytes from to (serialize msg) t))
  ]

  trips :
      (deserialize : Bytes → Result String WireMessage) (from : NodeId) (msg : WireMessage)
      → deserialize (serialize msg) ≡ ok msg
      → (ids : List NodeId) → RoundTrips serialize deserialize (copies from msg ids)
  trips deserialize from msg h [] = tt
  trips deserialize from msg h (to ∷ ids) = (h, trips deserialize from msg h ids)

  -- Let the message round-trip and the tick counter be below its maximum. A broadcast over an empty
  -- network without interceptors arrives after one tick, in the order of the list, exactly once at
  -- every node of the list but the sender, and never at the sender; nothing is corrupted and nothing
  -- stays in flight.
  pub broadcast-deliver_due :
      (deserialize : Bytes → Result String WireMessage) (from : NodeId) (msg : WireMessage)
      (ids : List NodeId) (t : MockTransport)
      → deserialize (serialize msg) ≡ ok msg
      → t.interceptors ≡ []
      → t.in_flight ≡ []
      → t.current_tick + 1 < 2 ^ 64
      → (let later = deliver_due deserialize (advance_tick (broadcast serialize from msg ids t)) in
          (later.1 ≡ record {
            delivered = arrivals serialize (copies from msg (others from ids));
            corrupted = [];
          })
          × (later.0.in_flight ≡ []))
  unfolding broadcast
  broadcast-deliver_due deserialize from msg ids t trip clean empty below =
      let r =
        send_each-deliver_due serialize deserialize (copies from msg (others from ids)) t
          (trips deserialize from msg trip (others from ids)) clean empty below in
      rw (broadcast-send_each from msg ids t) (r.1, r.2)

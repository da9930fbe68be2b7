-- ===== src/Integration/Delivery.antt =====
-- What the transport delivers: over a network without interceptors, and over any.
use mathlib.Core.List.{append-nil, append_assoc}
use dstate.Base.{
  ℕ, ◌+◌, ◌^◌, ◌<◌, ◌≡◌, refl, sym, ap, subst, ◌∙◌, inc_u64, inc_u64_below, String, true, false,
  List, [], ◌∷◌, ◌++◌, map, leb, arith, if◌then◌else◌,
}
use dstate.Types.Envelope.{NodeId}
use dstate.Types.Errors.{Result, ok}
use dstate.Types.Message.{Bytes, WireMessage}
use dstate.Integration.Transport.{
  InFlightMessage, in_flight_message, MockTransport, DeliveredMessage, DeliveryResult, split_due,
  deliver_due, advance_tick, send, send_bytes, apply_interceptors, queued, queued_all,
}

-- A message, from a node, to a node.
pub record Sending : Type 0 where
  pub from : NodeId
  pub to : NodeId
  pub message : WireMessage

-- Without interceptors a message goes into the queue as it is, for the next tick.
pub send_bytes_clean :
    (from to : NodeId) (bytes : Bytes) (t : MockTransport)
    → t.interceptors ≡ []
    → (send_bytes from to bytes t).in_flight
        ≡ t.in_flight ++ in_flight_message from to (inc_u64 t.current_tick) bytes ∷ []
      × ((send_bytes from to bytes t).interceptors ≡ [])
      × ((send_bytes from to bytes t).current_tick ≡ t.current_tick)
unfolding send_bytes apply_interceptors queued_all queued
send_bytes_clean from to bytes t h = rw h (refl, refl, refl)

later_tick : (n : ℕ) → n + 1 < 2 ^ 64 → leb (inc_u64 n) n ≡ false
later_tick n h = ground (arith, inc_u64_below n h)

leb_refl : (n : ℕ) → leb n n ≡ true
leb_refl n = ground arith

module _ (serialize : WireMessage → Bytes) where
  unfoldable pub send_each : List Sending → MockTransport → MockTransport
  unfolding send
  send_each [] t = t
  send_each (s ∷ sendings) t = send_each sendings (send serialize s.from s.to s.message t)

  abbrev pub queue : ℕ → List Sending → List InFlightMessage
  queue tick sendings = map (λ s. in_flight_message s.from s.to tick (serialize s.message)) sendings

  abbrev pub arrivals : List Sending → List DeliveredMessage
  arrivals sendings = map (λ s. record { from = s.from; to = s.to; message = s.message }) sendings

  send_each_clean :
      (sendings : List Sending) (t : MockTransport)
      → t.interceptors ≡ []
      → ((send_each sendings t).in_flight ≡ t.in_flight ++ queue (inc_u64 t.current_tick) sendings)
        × ((send_each sendings t).current_tick ≡ t.current_tick)
  unfolding send_each send
  send_each_clean [] t h = (sym (append-nil t.in_flight), refl)
  send_each_clean (s ∷ sendings) t h =
      let one = send_bytes_clean s.from s.to (serialize s.message) t h in
      let (queue_rest, tick_rest) =
        send_each_clean sendings (send_bytes s.from s.to (serialize s.message) t) one.1 in
      (
        queue_rest
            ∙ ap
                (λ n.
                  (send_bytes s.from s.to (serialize s.message) t).in_flight
                  ++ queue (inc_u64 n) sendings)
                one.2
            ∙ ap (λ l. l ++ queue (inc_u64 t.current_tick) sendings) one.0
            ∙ append_assoc t.in_flight _ _,
        tick_rest ∙ one.2,
      )

  module _ (deserialize : Bytes → Result String WireMessage) where
    -- Every message that is sent comes back from its bytes.
    abbrev pub RoundTrips : List Sending → Type 0
    RoundTrips [] = Unit
    RoundTrips (s ∷ sendings) =
        (deserialize (serialize s.message) ≡ ok s.message) × RoundTrips sendings

    -- Whether a message is due is whether its tick has come.
    split_sent :
        (now tick : ℕ) (sendings : List Sending)
        → RoundTrips sendings
        → split_due deserialize now (queue tick sendings) ≡ (
            if leb tick now
            then (record { delivered = arrivals sendings; corrupted = [] }, [])
            else (record { delivered = []; corrupted = [] }, queue tick sendings))
    unfolding split_due
    split_sent now tick [] h = ground arith
    split_sent now tick (s ∷ sendings) h = ground (arith, split_sent now tick sendings h.1, h.0)

    due_at :
        (sendings : List Sending) (t : MockTransport)
        → RoundTrips sendings
        → t.interceptors ≡ []
        → t.in_flight ≡ []
        → (now : ℕ)
        → split_due deserialize now (send_each sendings t).in_flight ≡ (
            if leb (inc_u64 t.current_tick) now
            then (record { delivered = arrivals sendings; corrupted = [] }, [])
            else (record { delivered = []; corrupted = [] }, (send_each sendings t).in_flight))
    due_at sendings t trip clean empty now =
        let queued =
          (send_each_clean sendings t clean).0
          ∙ ap (λ l. l ++ queue (inc_u64 t.current_tick) sendings) empty in
        subst
          (λ l. split_due deserialize now l ≡ (
            if leb (inc_u64 t.current_tick) now
            then (record { delivered = arrivals sendings; corrupted = [] }, [])
            else (record { delivered = []; corrupted = [] }, l)))
          (sym queued) (split_sent now (inc_u64 t.current_tick) sendings trip)

    -- Let every message that is sent round-trip and the tick counter be below its maximum. What is sent over an empty
    -- network without interceptors, from and to any nodes, does not arrive
    -- at that tick and stays in flight; after one tick it all arrives, once, in the order of sending and
    -- as it was sent, nothing is corrupted, and the network is empty again.
    pub send_each-deliver_due :
        (sendings : List Sending) (t : MockTransport)
        → RoundTrips sendings
        → t.interceptors ≡ []
        → t.in_flight ≡ []
        → t.current_tick + 1 < 2 ^ 64
        → (let sent = send_each sendings t in
            let later = deliver_due deserialize (advance_tick sent) in
            (deliver_due deserialize sent ≡ (sent, record { delivered = []; corrupted = [] }))
            × (later.1 ≡ record { delivered = arrivals sendings; corrupted = [] })
            × (later.0.in_flight ≡ []))
    unfolding deliver_due advance_tick
    send_each-deliver_due sendings t trip clean empty below =
        let sent = send_each sendings t in
        let tick = (send_each_clean sendings t clean).1 in
        let nothing : DeliveryResult = record { delivered = []; corrupted = [] } in
        let all : DeliveryResult = record { delivered = arrivals sendings; corrupted = [] } in
        let now : split_due deserialize sent.current_tick sent.in_flight
            ≡ (nothing, sent.in_flight) =
          ap (λ n. split_due deserialize n sent.in_flight) tick
          ∙ due_at sendings t trip clean empty t.current_tick
          ∙ ap (λ b. if b then (all, []) else (nothing, sent.in_flight))
              (later_tick t.current_tick below) in
        let next : split_due deserialize (inc_u64 sent.current_tick) sent.in_flight ≡ (all, []) =
          ap (λ n. split_due deserialize (inc_u64 n) sent.in_flight) tick
          ∙ due_at sendings t trip clean empty (inc_u64 t.current_tick)
          ∙ ap (λ b. if b then (all, []) else (nothing, sent.in_flight))
              (leb_refl (inc_u64 t.current_tick)) in
        (
          ap (λ r. (record sent { in_flight = r.1 }, r.0)) now,
          ap (λ r. r.0) next,
          ap (λ r. r.1) next,
        )

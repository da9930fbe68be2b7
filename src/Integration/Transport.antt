-- ===== src/Integration/Transport.antt =====
-- dstate-integration/src/transport.rs: messages between nodes as bytes. The encoding of `bincode` is
-- two parameters; the error of `deserialize` is the text of the one that `bincode` returns.
use dstate.Base.{
  ℕ, ◌+◌, ◌%◌, ◌^◌, inc_u64, String, Bool, not, ◌&&◌, List, [], ◌∷◌, ◌++◌, map, length, filter, leb,
  ◌==◌, if◌then◌else◌,
}
use dstate.Types.Envelope.{NodeId}
use dstate.Types.Errors.{Result, ok, err}
use dstate.Types.Message.{Bytes, WireMessage}
use dstate.Integration.Interceptor.{
  InterceptAction, deliver, drop, delay, deliver_many, InterceptContext, NetworkInterceptor,
}

pub record InFlightMessage : Type 0 where
  pub from : NodeId
  pub to : NodeId
  pub data_bytes : Bytes
  pub deliver_at_tick : ℕ

pub record MockTransport : Type 1 where
  pub in_flight : List InFlightMessage
  pub interceptors : List NetworkInterceptor
  pub message_counter : ℕ
  pub current_tick : ℕ
  pub rng_seed : ℕ

pub record DeliveredMessage : Type 0 where
  pub from : NodeId
  pub to : NodeId
  pub message : WireMessage

pub record CorruptedMessage : Type 0 where
  pub from : NodeId
  pub to : NodeId
  pub error : String

pub record DeliveryResult : Type 0 where
  pub delivered : List DeliveredMessage
  pub corrupted : List CorruptedMessage

unfoldable pub new : ℕ → MockTransport
new rng_seed = record {
  in_flight = [];
  interceptors = [];
  message_counter = 0;
  current_tick = 0;
  rng_seed = rng_seed;
}

-- The bytes that go on to the next interceptor, and the actions that are final.
pub record Sorted : Type 0 where
  pub next_pending : List Bytes
  pub finalized : List InterceptAction

-- The place of one action before what the later messages give.
abbrev pub sort_action : InterceptAction → Sorted → Sorted
sort_action (deliver bytes) s = record s { next_pending = bytes ∷ s.next_pending }
sort_action drop s = s
sort_action (delay bytes ticks) s = record s { finalized = delay bytes ticks ∷ s.finalized }
sort_action (deliver_many copies) s = record s { next_pending = copies ++ s.next_pending }

-- One interceptor on each pending message in turn.
unfoldable pub intercept_pending :
    NodeId
    → NodeId
    → InterceptContext
    → List Bytes
    → NetworkInterceptor
    → NetworkInterceptor × Sorted
intercept_pending from to context [] i = (i, record { next_pending = []; finalized = [] })
intercept_pending from to context (msg_bytes ∷ pending) i =
    let r = i.intercept i.self from to msg_bytes context in
    let rest = intercept_pending from to context pending (record i { self = r.0 }) in
    (rest.0, sort_action r.1 rest.1)

-- The loop over the interceptors: what is final from each in turn, and what is pending at the end.
unfoldable pub intercept_all :
    NodeId
    → NodeId
    → InterceptContext
    → List Bytes
    → List NetworkInterceptor
    → List NetworkInterceptor × Sorted
unfolding intercept_pending
intercept_all from to context pending [] = ([], record { next_pending = pending; finalized = [] })
intercept_all from to context pending (i ∷ interceptors) =
    let r = intercept_pending from to context pending i in
    let rest = intercept_all from to context r.1.next_pending interceptors in
    (r.0 ∷ rest.0, record (rest.1) { finalized = r.1.finalized ++ rest.1.finalized })

unfoldable pub apply_interceptors :
    NodeId
    → NodeId
    → Bytes
    → InterceptContext
    → MockTransport
    → MockTransport × List InterceptAction
unfolding intercept_all
apply_interceptors from to bytes context t = elim t.interceptors [
  | [] ↦ (t, deliver bytes ∷ [])
  | i ∷ interceptors ↦
      (let r = intercept_all from to context (bytes ∷ []) (i ∷ interceptors) in
        (record t { interceptors = r.0 }, r.1.finalized ++ map deliver r.1.next_pending))
]

abbrev pub in_flight_message : NodeId → NodeId → ℕ → Bytes → InFlightMessage
in_flight_message from to tick bytes = record {
  from = from;
  to = to;
  data_bytes = bytes;
  deliver_at_tick = tick;
}

-- The messages that an action puts in flight at tick `now`.
unfoldable pub queued : NodeId → NodeId → ℕ → InterceptAction → List InFlightMessage
queued from to now (deliver bytes) = in_flight_message from to (inc_u64 now) bytes ∷ []
queued from to now drop = []
queued from to now (delay bytes ticks) =
    in_flight_message from to ((now + 1 + ticks) % 2 ^ 64) bytes ∷ []
queued from to now (deliver_many copies) = map (in_flight_message from to (inc_u64 now)) copies

unfoldable pub queued_all : NodeId → NodeId → ℕ → List InterceptAction → List InFlightMessage
unfolding queued
queued_all from to now [] = []
queued_all from to now (action ∷ actions) =
    queued from to now action ++ queued_all from to now actions

unfoldable pub send_bytes : NodeId → NodeId → Bytes → MockTransport → MockTransport
unfolding apply_interceptors queued_all
send_bytes from to bytes t =
    let context : InterceptContext = record {
      current_tick = t.current_tick;
      message_id = t.message_counter;
      rng_seed = t.rng_seed;
    } in
    let t' = record t { message_counter = inc_u64 t.message_counter } in
    let r = apply_interceptors from to bytes context t' in
    record (r.0) { in_flight = r.0.in_flight ++ queued_all from to t.current_tick r.1 }

-- The loop of `broadcast`.
unfoldable pub broadcast_bytes : NodeId → Bytes → List NodeId → MockTransport → MockTransport
unfolding send_bytes
broadcast_bytes from bytes [] t = t
broadcast_bytes from bytes (to ∷ all_nodes) t =
    broadcast_bytes from bytes all_nodes (if to == from then t else send_bytes from to bytes t)

module _ (serialize : WireMessage → Bytes) where
  unfoldable pub send : NodeId → NodeId → WireMessage → MockTransport → MockTransport
  unfolding send_bytes
  send from to msg t = send_bytes from to (serialize msg) t

  unfoldable pub broadcast : NodeId → WireMessage → List NodeId → MockTransport → MockTransport
  unfolding broadcast_bytes
  broadcast from msg all_nodes t = broadcast_bytes from (serialize msg) all_nodes t

module _ (deserialize : Bytes → Result String WireMessage) where
  -- A message that is due, before what the later ones give.
  abbrev pub receive : InFlightMessage → Result String WireMessage → DeliveryResult → DeliveryResult
  receive m (ok message) r = record r {
    delivered = record { from = m.from; to = m.to; message = message } ∷ r.delivered;
  }
  receive m (err error) r = record r {
    corrupted = record { from = m.from; to = m.to; error = error } ∷ r.corrupted;
  }

  -- The loop of `deliver_due`: the result, and the messages that wait.
  unfoldable pub split_due : ℕ → List InFlightMessage → DeliveryResult × List InFlightMessage
  split_due now [] = (record { delivered = []; corrupted = [] }, [])
  split_due now (m ∷ messages) =
      let rest = split_due now messages in
      if leb m.deliver_at_tick now
      then (receive m (deserialize m.data_bytes) rest.0, rest.1)
      else (rest.0, m ∷ rest.1)

  unfoldable pub deliver_due : MockTransport → MockTransport × DeliveryResult
  unfolding split_due
  deliver_due t =
      let r = split_due t.current_tick t.in_flight in (record t { in_flight = r.1 }, r.0)

unfoldable pub advance_tick : MockTransport → MockTransport
advance_tick t = record t { current_tick = inc_u64 t.current_tick }

abbrev pub in_flight_count : MockTransport → ℕ
in_flight_count t = length t.in_flight

abbrev pub add_interceptor : NetworkInterceptor → MockTransport → MockTransport
add_interceptor i t = record t { interceptors = t.interceptors ++ i ∷ [] }

abbrev pub clear_interceptors : MockTransport → MockTransport
clear_interceptors t = record t { interceptors = [] }

-- A message is neither from the node nor to it.
abbrev pub not_involved : NodeId → InFlightMessage → Bool
not_involved n m = not (m.from == n) && not (m.to == n)

unfoldable pub drop_in_flight_for : NodeId → MockTransport → MockTransport
drop_in_flight_for n t = record t { in_flight = filter (not_involved n) t.in_flight }

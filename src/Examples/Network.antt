-- ===== src/Examples/Network.antt =====
-- The theorems on the transport, the interceptors, the test clock and the storage applied.
use mathlib.Core.List.{filter_map}
use dstate.Base.{
  ℕ, ◌+◌, ◌*◌, ◌^◌, ◌≡◌, refl, String, pos, inl, List, [], ◌∷◌, ◌++◌, length, arith, nat_eq,
  if◌then◌else◌,
}
use dstate.Types.Envelope.{NodeId, StateObject}
use dstate.Types.Errors.{Result, ok, err}
use dstate.Types.Generation
use dstate.Types.Message.{Bytes, WireMessage, sync, feed, request_snapshot}
use dstate.Startup.{restored, initialize}
use dstate.TestSupport.Clock.{reading, advance_all, with_base_unix_ms, advance_all-reading}
use dstate.TestSupport.Persistence
use dstate.TestSupport.Persistence.{in_memory, save_all, save_all-initialize}
use dstate.Integration.Interceptor.{
  deliver, InterceptContext, boxed, drop_all, duplicate_all, delay_ticks, partition,
  asymmetric_partition, corrupt_bytes,
}
use dstate.Integration.Transport.{
  InFlightMessage, MockTransport, in_flight_message, broadcast, send_bytes, deliver_due,
  advance_tick,
}
use dstate.Integration.Delivery.{Sending, send_each, arrivals, send_each-deliver_due}
use dstate.Integration.Due.{Interleaved, AllDue, AllLater, arrived, failed, deliver_due-splits}
use dstate.Integration.Broadcast.{others, copies, broadcast-deliver_due}
use dstate.Integration.Partition.{NeverDelays, partition-Cuts}
use dstate.Integration.Duplication.{repeat, duplicated-delayed}
use dstate.Integration.Corruption.{AllBytes, differing, corrupt_bytes-back}
use dstate.Examples.Nodes.{clock_1}

abbrev question : WireMessage
question = sync (request_snapshot "counter" "b")

abbrev notice : WireMessage
notice = feed (record { source_node = "a"; notifications = [] })

-- Two messages as bytes.
abbrev pub encode : WireMessage → Bytes
encode (sync msg) = 1 ∷ []
encode (feed batch) = 2 ∷ []

abbrev pub decode : Bytes → Result String WireMessage
decode (tag ∷ []) =
    if nat_eq tag 1 then ok question else if nat_eq tag 2 then ok notice else err "unknown tag"
decode _ = err "unexpected end of file"

-- At tick 7, with nothing in flight.
abbrev quiet : MockTransport
quiet = record {
  in_flight = [];
  interceptors = [];
  message_counter = 3;
  current_tick = 7;
  rng_seed = 42;
}

abbrev sendings : List Sending
sendings =
    record { from = "b"; to = "a"; message = question }
    ∷ record { from = "a"; to = "c"; message = notice }
    ∷ []

send_each-deliver_due_example :
    (let sent = send_each encode sendings quiet in
      let later = deliver_due decode (advance_tick sent) in
      (deliver_due decode sent ≡ (sent, record { delivered = []; corrupted = [] }))
      × (later.1 ≡ record { delivered = arrivals encode sendings; corrupted = [] })
      × (later.0.in_flight ≡ []))
send_each-deliver_due_example =
    send_each-deliver_due encode decode sendings quiet (refl, (refl, tt)) refl refl (omega arith)

abbrev everyone : List NodeId
everyone = "a" ∷ "b" ∷ "c" ∷ []

broadcast-deliver_due_example :
    (let later = deliver_due decode (advance_tick (broadcast encode "b" question everyone quiet)) in
      (later.1 ≡ record {
        delivered = arrivals encode (copies "b" question (others "b" everyone));
        corrupted = [];
      })
      × (later.0.in_flight ≡ []))
broadcast-deliver_due_example =
    broadcast-deliver_due encode decode "b" question everyone quiet refl refl refl (omega arith)

duplicates_at_once : NeverDelays (boxed duplicate_all)
unfolding duplicate_all
duplicates_at_once s from to bytes context = tt

-- The requests of "a" do not reach "b".
abbrev cut : MockTransport
cut = record quiet {
  interceptors =
      boxed duplicate_all
      ∷ boxed (partition (asymmetric_partition ("a" ∷ []) ("b" ∷ [])))
      ∷ boxed (delay_ticks 2)
      ∷ [];
}

partition-Cuts_example : (send_bytes "a" "b" (5 ∷ []) cut).in_flight ≡ cut.in_flight
partition-Cuts_example =
    partition-Cuts (asymmetric_partition ("a" ∷ []) ("b" ∷ [])) "a" "b" (5 ∷ [])
      (boxed duplicate_all ∷ []) (boxed (delay_ticks 2) ∷ []) cut refl (duplicates_at_once, tt)
      (inl (inl refl, inl refl))

abbrev slow : MockTransport
slow = record quiet {
  interceptors =
      boxed duplicate_all ∷ boxed duplicate_all ∷ boxed (delay_ticks 3) ∷ boxed drop_all ∷ [];
}

duplicated-delayed_example :
    (send_bytes "a" "b" (5 ∷ []) slow).in_flight
    ≡ slow.in_flight
      ++ repeat (2 ^ 2) (in_flight_message "a" "b" (slow.current_tick + 1 + 3) (5 ∷ []))
duplicated-delayed_example =
    duplicated-delayed "a" "b" (5 ∷ []) 2 3 (boxed drop_all ∷ []) slow refl (omega arith)

abbrev context_9 : InterceptContext
context_9 = record { current_tick = 7; message_id = 9; rng_seed = 42 }

corrupt_bytes-back_example :
    (out : Bytes) × (corrupt_bytes 99 "a" "b" (104 ∷ 105 ∷ 33 ∷ []) context_9 ≡ deliver out)
    × (differing out (104 ∷ 105 ∷ 33 ∷ []) ≡ 1)
    × (length out ≡ 3)
    × AllBytes out
    × (corrupt_bytes 99 "a" "b" out context_9 ≡ deliver (104 ∷ 105 ∷ 33 ∷ []))
corrupt_bytes-back_example =
    corrupt_bytes-back 99 "a" "b" context_9 (104 ∷ 105 ∷ 33 ∷ []) (omega arith)
      (omega arith, (omega arith, (omega arith, tt)))

advance_all-reading_example :
    reading (advance_all (1500000 ∷ 999999 ∷ 3000000 ∷ []) (with_base_unix_ms 40 (pos 1000)))
    ≡ record { now = 40 + 4 * 10 ^ 6; unix_ms = pos (1000 + 4) }
advance_all-reading_example =
    advance_all-reading 40 1000 (1500000 ∷ 999999 ∷ 3000000 ∷ []) (omega arith)

abbrev saved : ℕ → StateObject ℕ
saved n = record {
  generation = Generation.new 1000 n;
  storage_version = 2;
  value = n;
  created_time = pos 1000;
  modified_time = pos 1000;
}

save_all-initialize_example :
    initialize
      (in_memory.load (save_all in_memory (saved 1 ∷ saved 2 ∷ saved 3 ∷ []) Persistence.new))
      0
      clock_1
      (λ n version. err "no migration")
      (record { current_storage_version = 2 })
    ≡ restored (saved 3)
save_all-initialize_example =
    save_all-initialize (saved 1 ∷ saved 2 ∷ []) (saved 3) Persistence.new 0 clock_1
      (λ n version. err "no migration") (record { current_storage_version = 2 }) refl

-- One message is due, one is corrupted, and one waits.
abbrev busy : MockTransport
busy = record quiet {
  in_flight =
      in_flight_message "a" "b" 7 (1 ∷ [])
      ∷ in_flight_message "b" "a" 6 (9 ∷ [])
      ∷ in_flight_message "b" "c" 8 (2 ∷ [])
      ∷ [];
}

deliver_due-splits_example :
    (due later : List InFlightMessage) × Interleaved due later busy.in_flight
    × AllDue busy.current_tick due
    × AllLater busy.current_tick later
    × (deliver_due decode busy ≡ (
      record busy { in_flight = later },
      record {
        delivered = filter_map (arrived decode) due;
        corrupted = filter_map (failed decode) due;
      },
    ))
deliver_due-splits_example = deliver_due-splits decode busy

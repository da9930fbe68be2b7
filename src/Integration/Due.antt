-- ===== src/Integration/Due.antt =====
-- What `deliver_due` of dstate-integration/src/transport.rs takes out of any queue, and what it leaves.
use mathlib.Core.List.{filter_map}
use dstate.Base.{
  ℕ, ◌≤◌, ◌<◌, ◌≡◌, refl, ap, ◌∙◌, String, Option, none, some, inl, inr, List, [], ◌∷◌, leb, arith,
  Bool-cases,
}
use dstate.Types.Errors.{Result, ok, err}
use dstate.Types.Message.{Bytes, WireMessage}
use dstate.Integration.Transport.{
  InFlightMessage, MockTransport, DeliveredMessage, CorruptedMessage, DeliveryResult, receive,
  split_due, deliver_due,
}

-- The third list has the elements of the first two, each once and each of the two in its order.
pub data Interleaved {A : Type 0} : List A → List A → List A → Type 0 where
  empty : Interleaved [] [] []
  first : {xs ys zs : List A} (x : A) → Interleaved xs ys zs → Interleaved (x ∷ xs) ys (x ∷ zs)
  second : {xs ys zs : List A} (y : A) → Interleaved xs ys zs → Interleaved xs (y ∷ ys) (y ∷ zs)

abbrev pub AllDue : ℕ → List InFlightMessage → Type 0
AllDue now [] = Unit
AllDue now (m ∷ messages) = (m.deliver_at_tick ≤ now) × AllDue now messages

abbrev pub AllLater : ℕ → List InFlightMessage → Type 0
AllLater now [] = Unit
AllLater now (m ∷ messages) = (now < m.deliver_at_tick) × AllLater now messages

module _ (deserialize : Bytes → Result String WireMessage) where
  abbrev pub arrival : InFlightMessage → Result String WireMessage → Option DeliveredMessage
  arrival m (ok message) = some (record { from = m.from; to = m.to; message = message })
  arrival m (err error) = none

  abbrev pub failure : InFlightMessage → Result String WireMessage → Option CorruptedMessage
  failure m (ok message) = none
  failure m (err error) = some (record { from = m.from; to = m.to; error = error })

  -- What a message arrives as, if its bytes can be read, and the error, if they cannot.
  abbrev pub arrived : InFlightMessage → Option DeliveredMessage
  arrived m = arrival m (deserialize m.data_bytes)

  abbrev pub failed : InFlightMessage → Option CorruptedMessage
  failed m = failure m (deserialize m.data_bytes)

  -- What the messages that are due arrive as, and the errors of the others.
  abbrev pub outcome : List InFlightMessage → DeliveryResult
  outcome due = record { delivered = filter_map arrived due; corrupted = filter_map failed due }

  receive-outcome :
      (m : InFlightMessage) (due : List InFlightMessage) (o : Result String WireMessage)
      → deserialize m.data_bytes ≡ o
      → receive deserialize m o (outcome due) ≡ outcome (m ∷ due)
  unfolding filter_map
  receive-outcome m due (ok message) e = rw e refl
  receive-outcome m due (err error) e = rw e refl

  record Splits (now : ℕ) (all : List InFlightMessage) (r : DeliveryResult × List InFlightMessage)
      : Type 0 where
    due : List InFlightMessage
    later : List InFlightMessage
    parts : Interleaved due later all
    come : AllDue now due
    wait : AllLater now later
    result : r ≡ (outcome due, later)

  split_due-Splits :
      (now : ℕ) (all : List InFlightMessage) → Splits now all (split_due deserialize now all)
  unfolding split_due filter_map
  split_due-Splits now [] = record {
    due = [];
    later = [];
    parts = empty;
    come = tt;
    wait = tt;
    result = refl;
  }
  split_due-Splits now (m ∷ messages) =
      let s = split_due-Splits now messages in
      elim (Bool-cases (leb m.deliver_at_tick now)) [
        | inl is_due ↦ record {
          due = m ∷ s.due;
          later = s.later;
          parts = first m s.parts;
          come = (ground (arith, is_due), s.come);
          wait = s.wait;
          result = rw is_due (
              ap (λ r. (receive deserialize m (deserialize m.data_bytes) r.0, r.1)) s.result
              ∙ ap (λ r. (r, s.later)) (receive-outcome m s.due _ refl));
        }
        | inr waits ↦ record {
          due = s.due;
          later = m ∷ s.later;
          parts = second m s.parts;
          come = s.come;
          wait = (ground (arith, waits), s.wait);
          result = rw waits (ap (λ r. (r.0, m ∷ r.1)) s.result);
        }
      ]

  -- A delivery parts any messages in flight into those that are due and those whose tick is later, each
  -- message into one of the two, once and in its order. Those that are due are taken out, and nothing else
  -- of the network changes: each whose bytes can be read is delivered, from and to its nodes and
  -- with what the bytes say, each of the others is reported as corrupted with its nodes and its error,
  -- and both in the order of the queue.
  pub deliver_due-splits :
      (t : MockTransport)
      → (due later : List InFlightMessage) × Interleaved due later t.in_flight
        × AllDue t.current_tick due
        × AllLater t.current_tick later
        × (deliver_due deserialize t ≡ (
          record t { in_flight = later },
          record { delivered = filter_map arrived due; corrupted = filter_map failed due },
        ))
  unfolding deliver_due
  deliver_due-splits t =
      let s = split_due-Splits t.current_tick t.in_flight in
      (
        s.due,
        s.later,
        s.parts,
        s.come,
        s.wait,
        ap (λ r. (record t { in_flight = r.1 }, r.0)) s.result,
      )

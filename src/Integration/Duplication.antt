-- ===== src/Integration/Duplication.antt =====
-- How duplications and a delay combine.
use mathlib.Core.List.{append-nil}
use native.Mathlib.Nat.{pow-suc}
use dstate.Base.{
  ℕ, zero, suc, ◌+◌, ◌*◌, ◌%◌, ◌^◌, ◌<◌, ◌≡◌, refl, sym, ap, ◌∙◌, List, [], ◌∷◌, ◌++◌, arith,
}
use dstate.Types.Envelope.{NodeId}
use dstate.Types.Message.{Bytes}
use dstate.Integration.Interceptor.{
  delay, deliver_many, InterceptContext, NetworkInterceptor, boxed, delay_ticks, duplicate_all,
}
use dstate.Integration.Transport.{
  in_flight_message, MockTransport, sort_action, intercept_pending, intercept_all, queued,
  queued_all, send_bytes,
}
use dstate.Integration.Pipeline.{all_nothing, context_of, sent_through}

abbrev pub repeat : {A : Type 0} → ℕ → A → List A
repeat zero a = []
repeat (suc n) a = a ∷ repeat n a

-- `n` times the interceptor, before the others.
abbrev pub times : ℕ → NetworkInterceptor → List NetworkInterceptor → List NetworkInterceptor
times zero i after = after
times (suc n) i after = i ∷ times n i after

repeat_double : {A : Type 0} (m : ℕ) (a : A) → repeat (suc m + suc m) a ≡ a ∷ a ∷ repeat (m + m) a
repeat_double m a =
    let more : suc m + suc m ≡ suc (suc (m + m)) = omega arith in ap (λ n. repeat n a) more

double_copies : (m k : ℕ) → (m + m) * 2 ^ k ≡ m * 2 ^ suc k
double_copies m k = omega (arith, ap (λ (t : ℕ). m * t) (pow-suc 2 k))

times_one : (m : ℕ) → m * 2 ^ 0 ≡ m
times_one m = omega arith

module _ (from to : NodeId) (context : InterceptContext) (bytes : Bytes) where
  duplicated :
      (m : ℕ)
      → intercept_pending from to context (repeat m bytes) (boxed duplicate_all)
        ≡ (boxed duplicate_all, record { next_pending = repeat (m + m) bytes; finalized = [] })
  unfolding intercept_pending duplicate_all
  duplicated zero = refl
  duplicated (suc m) =
      ap (λ r. (r.0, sort_action (deliver_many (bytes ∷ bytes ∷ [])) r.1)) (duplicated m)
      ∙ ap (λ l. (boxed duplicate_all, record { next_pending = l; finalized = [] }))
          (sym (repeat_double m bytes))

  delayed :
      (ticks m : ℕ)
      → (intercept_pending from to context (repeat m bytes) (boxed (delay_ticks ticks))).1
        ≡ record { next_pending = []; finalized = repeat m (delay bytes ticks) }
  unfolding intercept_pending delay_ticks
  delayed ticks zero = refl
  delayed ticks (suc m) = ap (λ s. sort_action (delay bytes ticks) s) (delayed ticks m)

  -- `k` duplications of `m` copies, and then the delay; the interceptors after it see nothing.
  duplicated_delayed :
      (k m ticks : ℕ) (after : List NetworkInterceptor)
      → (intercept_all from to context
          (repeat m bytes)
          (times k (boxed duplicate_all) (boxed (delay_ticks ticks) ∷ after))).1
        ≡ record { next_pending = []; finalized = repeat (m * 2 ^ k) (delay bytes ticks) }
  unfolding intercept_all
  duplicated_delayed zero m ticks after =
      rw
        (
          delayed ticks m,
          all_nothing from to context after,
          append-nil (repeat m (delay bytes ticks)),
          times_one m,
        )
        refl
  duplicated_delayed (suc k) m ticks after =
      rw (duplicated m, duplicated_delayed k (m + m) ticks after, double_copies m k) refl

-- The delayed messages in flight.
queued_delays :
    (from to : NodeId) (now ticks n : ℕ) (bytes : Bytes)
    → queued_all from to now (repeat n (delay bytes ticks))
      ≡ repeat n (in_flight_message from to ((now + 1 + ticks) % 2 ^ 64) bytes)
unfolding queued_all queued
queued_delays from to now ticks zero bytes = refl
queued_delays from to now ticks (suc n) bytes =
    ap (λ l. in_flight_message from to ((now + 1 + ticks) % 2 ^ 64) bytes ∷ l)
      (queued_delays from to now ticks n bytes)

-- A message that meets `k` duplications and then a delay of `ticks` goes in flight as `2 ^ k`
-- copies, every one of them due `ticks` after the next tick, whatever interceptors come after the delay,
-- while no tick number wraps around.
pub duplicated-delayed :
    (from to : NodeId) (bytes : Bytes) (k ticks : ℕ) (after : List NetworkInterceptor)
    (t : MockTransport)
    → t.interceptors ≡ times k (boxed duplicate_all) (boxed (delay_ticks ticks) ∷ after)
    → t.current_tick + 1 + ticks < 2 ^ 64
    → (send_bytes from to bytes t).in_flight
      ≡ t.in_flight ++ repeat (2 ^ k) (in_flight_message from to (t.current_tick + 1 + ticks) bytes)
duplicated-delayed from to bytes k ticks after t chain below =
    let copies : 1 * 2 ^ k ≡ 2 ^ k = omega arith in
    let due : (t.current_tick + 1 + ticks) % 2 ^ 64 ≡ t.current_tick + 1 + ticks = omega arith in
    sent_through from to bytes _ t chain
    ∙ rw
        (
          duplicated_delayed from to (context_of t) bytes k 1 ticks after,
          append-nil (repeat (1 * 2 ^ k) (delay bytes ticks)),
          queued_delays from to t.current_tick ticks (1 * 2 ^ k) bytes,
          copies,
          due,
        )
        refl

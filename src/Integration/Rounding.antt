-- ===== src/Integration/Rounding.antt =====
-- How the cluster rounds durations to ticks.
use native.Mathlib.Nat.{mod-lt, div-add-mod'}
use dstate.Base.{
  ℕ, zero, suc, ◌+◌, ◌*◌, ◌/◌, ◌%◌, ◌≤◌, ◌<◌, ◌≡◌, refl, inl, inr, Bool-cases, ltb, nat_eq, arith,
}
use dstate.Types.Config.{Duration}
use dstate.Integration.Cluster.{div_ceil, at_least_one, millis_u64, tick_ms, delay_ticks}

next_multiple : (q b : ℕ) → (q + 1) * b ≡ q * b + b
next_multiple q b = omega arith

-- The least multiple of `b` that is not below `a`.
div_ceil-bounds : (a b : ℕ) → 0 < b → (a ≤ div_ceil a b * b) × (div_ceil a b * b < a + b)
div_ceil-bounds a b h =
    let parts = div-add-mod' a b in
    let below = mod-lt a h in
    elim (Bool-cases (ltb 0 (a % b))) [
      | inl up ↦
          (let some_left : 0 < a % b = ground arith in
            rw up (
              omega (arith, parts, below, next_multiple (a / b) b),
              omega (arith, parts, some_left, next_multiple (a / b) b),
            ))
      | inr exact ↦
          (let none_left : a % b ≡ 0 = ground arith in
            rw exact (omega (arith, parts, none_left), omega (arith, parts, h)))
    ]

at_least_one_same : (n : ℕ) → 0 < n → at_least_one n ≡ n
at_least_one_same zero h = absurd (omega arith)
at_least_one_same (suc n) h = refl

positive_factor : (a q b : ℕ) → 0 < a → a ≤ q * b → 0 < q
positive_factor a zero b h p = absurd (omega arith)
positive_factor a (suc q) b h p = omega arith

-- A number of ticks that is rounded up and at least one, for a positive `a`.
at_least_one-bounds :
    (a b : ℕ)
    → 0 < b
    → 0 < a
    → (a ≤ at_least_one (div_ceil a b) * b) × (at_least_one (div_ceil a b) * b < a + b)
at_least_one-bounds a b h p =
    let d = div_ceil-bounds a b h in
    rw (at_least_one_same (div_ceil a b) (positive_factor a (div_ceil a b) b p d.0)) d

-- Where a tick has at least one whole millisecond, a delay of `d` milliseconds takes the least number
-- of ticks that together are not shorter than it: a scheduled message is never early, and less than
-- one tick late.
pub delay_ticks-bounds :
    (tick_duration delay : Duration)
    → 0 < tick_ms tick_duration
    → (millis_u64 delay ≤ delay_ticks tick_duration delay * tick_ms tick_duration)
      × (delay_ticks tick_duration delay * tick_ms tick_duration
          < millis_u64 delay + tick_ms tick_duration)
unfolding delay_ticks
delay_ticks-bounds tick_duration delay h =
    let a = millis_u64 delay in
    let b = tick_ms tick_duration in
    elim (Bool-cases (nat_eq a 0)) [
      | inl zero_delay ↦
          (let none_left : a ≡ 0 = ground arith in
            rw zero_delay (omega (arith, none_left), omega (arith, h)))
      | inr waits ↦
          (let positive : 0 < a = ground arith in rw waits (at_least_one-bounds a b h positive))
    ]

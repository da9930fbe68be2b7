-- ===== src/TestSupport/Clock.antt =====
-- `TestClock` of dstate/src/traits/clock.rs: time that moves when a test says so.
use dstate.Base.{
  ℕ, ◌+◌, ◌*◌, ◌/◌, ◌%◌, ◌^◌, ◌<◌, ℤ, pos, as_u64, as_i64, List, [], ◌∷◌, arith, ◌≡◌, ap, ◌∙◌,
}
use dstate.Types.Config.{Duration, Instant}
use dstate.Types.Envelope.{Clock}

-- `elapsed_ms` is an `i64`, kept by its bits.
pub record TestClock : Type 0 where
  pub start_instant : Instant
  pub elapsed_ms : ℕ
  pub base_unix_ms : ℤ

-- `Duration::as_millis`
abbrev pub as_millis : Duration → ℕ
as_millis d = d / 10 ^ 6

-- `start_instant` is what `Instant::now()` returned.
unfoldable pub with_base_unix_ms : Instant → ℤ → TestClock
with_base_unix_ms start_instant base_unix_ms = record {
  start_instant = start_instant;
  elapsed_ms = 0;
  base_unix_ms = base_unix_ms;
}

unfoldable pub advance : Duration → TestClock → TestClock
advance duration c = record c { elapsed_ms = (c.elapsed_ms + as_millis duration) % 2 ^ 64 }

unfoldable pub elapsed : TestClock → Duration
elapsed c = c.elapsed_ms * 10 ^ 6

unfoldable pub now : TestClock → Instant
unfolding elapsed
now c = c.start_instant + elapsed c

-- The sum of two `i64`, which wraps around.
unfoldable pub unix_ms : TestClock → ℤ
unix_ms c = as_i64 ((as_u64 c.base_unix_ms + c.elapsed_ms) % 2 ^ 64)

-- What an operation reads.
abbrev pub reading : TestClock → Clock
reading c = record { now = now c; unix_ms = unix_ms c }

unfoldable pub advance_all : List Duration → TestClock → TestClock
unfolding advance
advance_all [] c = c
advance_all (d ∷ durations) c = advance_all durations (advance d c)

abbrev pub total_millis : List Duration → ℕ
total_millis [] = 0
total_millis (d ∷ durations) = as_millis d + total_millis durations

advance_all-elapsed :
    (durations : List Duration) (c : TestClock)
    → c.elapsed_ms + total_millis durations < 2 ^ 64
    → advance_all durations c ≡ record c { elapsed_ms = c.elapsed_ms + total_millis durations }
unfolding advance_all advance
advance_all-elapsed [] c h =
    let sum : c.elapsed_ms ≡ c.elapsed_ms + 0 = omega arith in
    ap (λ n. record c { elapsed_ms = n }) sum
advance_all-elapsed (d ∷ durations) c h =
    let sum : (c.elapsed_ms + as_millis d) % 2 ^ 64 + total_millis durations
        ≡ c.elapsed_ms + (as_millis d + total_millis durations) =
      omega arith in
    advance_all-elapsed durations (advance d c) (omega arith)
    ∙ ap (λ n. record c { elapsed_ms = n }) sum

-- Both readings of a test clock move together: after any advances that sum up, each rounded down to
-- whole milliseconds, to `m` milliseconds, the instant is `m` milliseconds after the start
-- and the wall clock `m` milliseconds after its base, while neither leaves its range.
pub advance_all-reading :
    (start_instant : Instant) (base : ℕ) (durations : List Duration)
    → base + total_millis durations < 2 ^ 63
    → reading (advance_all durations (with_base_unix_ms start_instant (pos base))) ≡ record {
      now = start_instant + total_millis durations * 10 ^ 6;
      unix_ms = pos (base + total_millis durations);
    }
unfolding with_base_unix_ms now elapsed unix_ms
advance_all-reading start_instant base durations h =
    let total = total_millis durations in
    let sum : 0 + total ≡ total = omega arith in
    let wall : as_i64 ((base % 2 ^ 64 + total) % 2 ^ 64) ≡ pos (base + total) = ground arith in
    ap reading (
      advance_all-elapsed durations (with_base_unix_ms start_instant (pos base)) (omega arith)
      ∙ ap (λ n. record { start_instant = start_instant; elapsed_ms = n; base_unix_ms = pos base })
          sum)
    ∙ ap (λ u. record { now = start_instant + total * 10 ^ 6; unix_ms = u }) wall

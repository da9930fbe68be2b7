-- ===== src/Base/Words.antt =====
-- Rust's machine integers: `u32` and `u64` increments wrap around (a release build), and `i64` is a
-- signed integer that `as u64` reads modulo 2^64.
use Prim.Native.Nat.{ℕ, ◌+◌, ◌-◌, ◌%◌, ◌^◌, ◌<◌}
use mathlib.Core.Path.{◌≡◌}
use native.Mathlib.Omega.{arith}
use dstate.Base.Tests.{ltb, if◌then◌else◌}

abbrev pub inc_u32 : ℕ → ℕ
inc_u32 n = (n + 1) % 2 ^ 32

abbrev pub inc_u64 : ℕ → ℕ
inc_u64 n = (n + 1) % 2 ^ 64

-- `negsuc n` is -(n + 1).
pub data ℤ : Type 0 where
  pos : ℕ → ℤ
  negsuc : ℕ → ℤ

-- `x as u64`
abbrev pub as_u64 : ℤ → ℕ
as_u64 (pos n) = n % 2 ^ 64
as_u64 (negsuc n) = 2 ^ 64 - 1 - n % 2 ^ 64

-- `x as i64` of a `u64`
abbrev pub as_i64 : ℕ → ℤ
as_i64 n = if ltb n (2 ^ 63) then pos n else negsuc (2 ^ 64 - 1 - n)

pub as_u64-lt : (t : ℤ) → as_u64 t < 2 ^ 64
as_u64-lt (pos n) = omega arith
as_u64-lt (negsuc n) = omega arith

pub inc_u64_below : (n : ℕ) → n + 1 < 2 ^ 64 → inc_u64 n ≡ n + 1
inc_u64_below n h = omega arith

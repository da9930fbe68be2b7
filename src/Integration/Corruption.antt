-- ===== src/Integration/Corruption.antt =====
-- What `CorruptBytes` does to a message, and the range of its hash.
use Prim.Native.Nat.{bit_xor}
use native.Mathlib.Nat.{pow-suc, one-le-pow, mod-lt}
use dstate.Base.{
  ℕ, zero, suc, ◌+◌, ◌/◌, ◌%◌, ◌^◌, ◌<◌, ◌≡◌, refl, ap, ◌∙◌, [], ◌∷◌, length, arith, nat_eq,
  if◌then◌else◌,
}
use dstate.Base.Bits.{bit_xor-lt, bit_xor-back, bit_xor_same}
use dstate.Types.Envelope.{NodeId}
use dstate.Types.Message.{Bytes}
use dstate.Integration.Interceptor.{
  deliver, InterceptContext, splitmix64, shift_right, xor_at, corrupt_bytes,
}

-- Every number of the list is a byte.
abbrev pub AllBytes : Bytes → Type 0
AllBytes [] = Unit
AllBytes (b ∷ bytes) = (b < 256) × AllBytes bytes

-- The number of positions at which two texts differ.
abbrev pub differing : Bytes → Bytes → ℕ
differing (x ∷ xs) (y ∷ ys) = let rest = differing xs ys in if nat_eq x y then rest else rest + 1
differing _ _ = 0

differing_none : (bytes : Bytes) → differing bytes bytes ≡ 0
differing_none [] = refl
differing_none (b ∷ bytes) = ground (arith, differing_none bytes)

module _ (mask : ℕ) where
  length-xor_at : (idx : ℕ) (bytes : Bytes) → length (xor_at idx mask bytes) ≡ length bytes
  unfolding xor_at
  length-xor_at idx [] = refl
  length-xor_at zero (b ∷ bytes) = refl
  length-xor_at (suc idx) (b ∷ bytes) = ap suc (length-xor_at idx bytes)

  xor_at-AllBytes :
      (idx : ℕ) (bytes : Bytes) → mask < 256 → AllBytes bytes → AllBytes (xor_at idx mask bytes)
  unfolding xor_at
  xor_at-AllBytes idx [] m h = tt
  xor_at-AllBytes zero (b ∷ bytes) m h = (bit_xor-lt 8 b mask h.0 m, h.1)
  xor_at-AllBytes (suc idx) (b ∷ bytes) m h = (h.0, xor_at-AllBytes idx bytes m h.1)

  xor_at-back :
      (idx : ℕ) (bytes : Bytes)
      → mask < 256
      → AllBytes bytes
      → xor_at idx mask (xor_at idx mask bytes) ≡ bytes
  unfolding xor_at
  xor_at-back idx [] m h = refl
  xor_at-back zero (b ∷ bytes) m h = ap (λ c. c ∷ bytes) (bit_xor-back 8 b mask h.0 m)
  xor_at-back (suc idx) (b ∷ bytes) m h = ap (λ l. b ∷ l) (xor_at-back idx bytes m h.1)

  xor_at-differing :
      (idx : ℕ) (bytes : Bytes)
      → mask < 256
      → 0 < mask
      → idx < length bytes
      → differing (xor_at idx mask bytes) bytes ≡ 1
  unfolding xor_at
  xor_at-differing idx [] m o i = absurd (omega arith)
  xor_at-differing zero (b ∷ bytes) m o i =
      ground (arith, differing_none bytes, bit_xor_same 8 b mask)
  xor_at-differing (suc idx) (b ∷ bytes) m o i =
      ground (arith, xor_at-differing idx bytes m o (omega arith))

wrapped-lt : (n : ℕ) → n % 2 ^ 64 < 2 ^ 64
wrapped-lt n = omega arith

shifted-lt : (n : ℕ) → n % 2 ^ 64 / 2 ^ 31 < 2 ^ 64
shifted-lt n = omega arith

power-lt : (n k : ℕ) → n < k → 2 ^ n < 2 ^ k
power-lt n zero h = absurd (omega arith)
power-lt zero (suc k) h = omega (arith, pow-suc 2 k, one-le-pow k 2)
power-lt (suc n) (suc k) h = omega (arith, pow-suc 2 n, pow-suc 2 k, power-lt n k (omega arith))

digit-lt : (n : ℕ) → n % 8 < 8
digit-lt n = omega arith

-- The hash is a `u64`, whatever goes in.
pub splitmix64-lt : (x : ℕ) → splitmix64 x < 2 ^ 64
unfolding splitmix64
splitmix64-lt x = bit_xor-lt 64 _ _ (wrapped-lt _) (shifted-lt _)

module _ (seed : ℕ) (from to : NodeId) (context : InterceptContext) where
  abbrev hash_of : ℕ
  hash_of = splitmix64 (bit_xor seed context.message_id)

  abbrev mask_of : ℕ
  mask_of = 2 ^ (shift_right hash_of 8 % 8)

  corrupted_at :
      (bytes : Bytes)
      → corrupt_bytes seed from to bytes context
        ≡ deliver (xor_at (hash_of % length bytes) mask_of bytes)
  unfolding corrupt_bytes xor_at
  corrupted_at [] = refl
  corrupted_at (b ∷ bytes) = refl

  mask_below : mask_of < 256
  mask_below = power-lt (shift_right hash_of 8 % 8) 8 (digit-lt (shift_right hash_of 8))

  mask_above : 0 < mask_of
  mask_above = one-le-pow (shift_right hash_of 8 % 8) 2 (omega arith)

  -- `CorruptBytes` changes exactly one byte of a message of at least one byte, keeps its length and the
  -- range of its bytes, and is undone by a second pass with the same seed in the same context.
  pub corrupt_bytes-back :
      (bytes : Bytes)
      → 0 < length bytes
      → AllBytes bytes
      → (out : Bytes) × (corrupt_bytes seed from to bytes context ≡ deliver out)
        × (differing out bytes ≡ 1)
        × (length out ≡ length bytes)
        × AllBytes out
        × (corrupt_bytes seed from to out context ≡ deliver bytes)
  corrupt_bytes-back bytes some_bytes h =
      let idx = hash_of % length bytes in
      let out = xor_at idx mask_of bytes in
      let len = length-xor_at mask_of idx bytes in
      (
        out,
        corrupted_at bytes,
        xor_at-differing mask_of idx bytes mask_below mask_above (mod-lt hash_of some_bytes),
        len,
        xor_at-AllBytes mask_of idx bytes mask_below h,
        corrupted_at out
            ∙ ap (λ n. deliver (xor_at (hash_of % n) mask_of out)) len
            ∙ ap deliver (xor_at-back mask_of idx bytes mask_below h),
      )

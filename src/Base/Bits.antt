-- ===== src/Base/Bits.antt =====
-- Exclusive or, digit by digit: bounds, and that it undoes itself.
use Prim.Native.Nat.{bit_xor, digits, differ, bit_xor-bitwise}
use Prim.Native.Nat.{ℕ, zero, suc, ◌+◌, ◌*◌, ◌/◌, ◌%◌, ◌^◌, ◌≤◌, ◌<◌}
use mathlib.Core.Path.{◌≡◌, refl, sym, ap, ◌∙◌}
use native.Mathlib.Omega.{arith}
use native.Mathlib.Nat.{pow-suc, le_refl}

-- More digits to go than the first number has change nothing.
enough_digits :
    (n m a b : ℕ) → a ≤ n → a ≤ m → digits (λ y. y) differ n a b ≡ digits (λ y. y) differ m a b
enough_digits zero zero zero b p q = refl
enough_digits zero (suc m) zero b p q = refl
enough_digits (suc n) zero zero b p q = refl
enough_digits (suc n) (suc m) zero b p q = refl
enough_digits zero m (suc a) b p q = absurd (omega arith)
enough_digits (suc n) zero (suc a) b p q = absurd (omega arith)
enough_digits (suc n) (suc m) (suc a) b p q =
    ap (λ d. d * 2 + differ (suc a % 2) (b % 2))
      (enough_digits n m (suc a / 2) (b / 2) (omega arith) (omega arith))

-- The lowest digit, and the others.
xor_step : (a b : ℕ) → bit_xor a b ≡ bit_xor (a / 2) (b / 2) * 2 + differ (a % 2) (b % 2)
xor_step zero b = simp bit_xor-bitwise (omega arith)
xor_step (suc a) b = simp bit_xor-bitwise (
    ap (λ d. d * 2 + differ (suc a % 2) (b % 2))
      (enough_digits a (suc a / 2) (suc a / 2) (b / 2) (omega arith) (le_refl _)))

differ_digit : (x y : ℕ) → x < 2 → y < 2 → differ x y < 2
differ_digit zero y p q = q
differ_digit (suc zero) zero p q = omega arith
differ_digit (suc zero) (suc zero) p q = omega arith
differ_digit (suc zero) (suc (suc y)) p q = absurd (omega arith)
differ_digit (suc (suc x)) y p q = absurd (omega arith)

differ_back : (x y : ℕ) → x < 2 → y < 2 → differ (differ x y) y ≡ x
differ_back zero zero p q = refl
differ_back zero (suc zero) p q = refl
differ_back (suc zero) zero p q = refl
differ_back (suc zero) (suc zero) p q = refl
differ_back x (suc (suc y)) p q = absurd (omega arith)
differ_back (suc (suc x)) y p q = absurd (omega arith)

pub bit_xor-lt : (k a b : ℕ) → a < 2 ^ k → b < 2 ^ k → bit_xor a b < 2 ^ k
bit_xor-lt zero zero zero p q = omega arith
bit_xor-lt zero zero (suc b) p q = absurd (omega arith)
bit_xor-lt zero (suc a) b p q = absurd (omega arith)
bit_xor-lt (suc k) a b p q = omega (
  arith,
  pow-suc 2 k,
  xor_step a b,
  bit_xor-lt k (a / 2) (b / 2) (omega (arith, pow-suc 2 k)) (omega (arith, pow-suc 2 k)),
  differ_digit (a % 2) (b % 2) (omega arith) (omega arith),
)

-- The second exclusive or with the same number takes back the first.
pub bit_xor-back : (k a b : ℕ) → a < 2 ^ k → b < 2 ^ k → bit_xor (bit_xor a b) b ≡ a
bit_xor-back zero zero zero p q = refl
bit_xor-back zero zero (suc b) p q = absurd (omega arith)
bit_xor-back zero (suc a) b p q = absurd (omega arith)
bit_xor-back (suc k) a b p q =
    let rest = bit_xor (a / 2) (b / 2) in
    let low = differ (a % 2) (b % 2) in
    let digit : low < 2 = differ_digit (a % 2) (b % 2) (omega arith) (omega arith) in
    let upper : (rest * 2 + low) / 2 ≡ rest = omega arith in
    let lower : (rest * 2 + low) % 2 ≡ low = omega arith in
    let back =
      bit_xor-back k (a / 2) (b / 2) (omega (arith, pow-suc 2 k)) (omega (arith, pow-suc 2 k)) in
    ap (λ n. bit_xor n b) (xor_step a b)
    ∙ xor_step (rest * 2 + low) b
    ∙ rw (upper, lower, back, differ_back (a % 2) (b % 2) (omega arith) (omega arith)) (omega arith)

differ_same : (x y : ℕ) → x < 2 → y < 2 → differ x y ≡ x → y ≡ 0
differ_same zero y p q e = e
differ_same (suc zero) zero p q e = refl
differ_same (suc zero) (suc zero) p q e = absurd (omega arith)
differ_same (suc zero) (suc (suc y)) p q e = absurd (omega arith)
differ_same (suc (suc x)) y p q e = absurd (omega arith)

-- Only zero changes nothing.
pub bit_xor_same : (k a b : ℕ) → b < 2 ^ k → bit_xor a b ≡ a → b ≡ 0
bit_xor_same zero a b q e = omega arith
bit_xor_same (suc k) a b q e =
    let low = differ (a % 2) (b % 2) in
    let step : bit_xor (a / 2) (b / 2) * 2 + low ≡ a = sym (xor_step a b) ∙ e in
    let rest : bit_xor (a / 2) (b / 2) ≡ a / 2 =
      omega (arith, differ_digit (a % 2) (b % 2) (omega arith) (omega arith)) in
    let digit : low ≡ a % 2 =
      omega (arith, differ_digit (a % 2) (b % 2) (omega arith) (omega arith)) in
    let none = differ_same (a % 2) (b % 2) (omega arith) (omega arith) digit in
    let others = bit_xor_same k (a / 2) (b / 2) (omega (arith, pow-suc 2 k)) rest in omega arith

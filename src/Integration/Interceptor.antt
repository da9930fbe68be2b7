-- ===== src/Integration/Interceptor.antt =====
-- dstate-integration/src/interceptor.rs: what can happen to a message on its way.
use Prim.Native.Nat.{bit_xor}
use dstate.Base.{
  ℕ, zero, suc, ◌+◌, ◌*◌, ◌/◌, ◌%◌, ◌^◌, Bool, true, false, not, ◌&&◌, ◌||◌, List, [], ◌∷◌, length,
  ◌==◌, if◌then◌else◌,
}
use dstate.Types.Envelope.{NodeId}
use dstate.Types.Message.{Bytes}

pub data InterceptAction : Type 0 where
  deliver : Bytes → InterceptAction
  drop : InterceptAction
  delay : Bytes → ℕ → InterceptAction
  deliver_many : List Bytes → InterceptAction

pub record InterceptContext : Type 0 where
  pub current_tick : ℕ
  pub message_id : ℕ
  pub rng_seed : ℕ

-- `Box<dyn NetworkInterceptor>`: the value behind the pointer, and its method on `&mut self`.
pub record NetworkInterceptor : Type 1 where
  pub Self : Type 0
  pub self : Self
  pub intercept : Self → NodeId → NodeId → Bytes → InterceptContext → Self × InterceptAction

-- The type of `intercept` on a value that it does not change.
abbrev pub Intercept : Type 0
Intercept = NodeId → NodeId → Bytes → InterceptContext → InterceptAction

abbrev pub boxed : Intercept → NetworkInterceptor
boxed f = record {
  Self = Unit;
  self = tt;
  intercept = λ s from to bytes context. (s, f from to bytes context);
}

unfoldable pub pass_through : Intercept
pass_through from to msg_bytes context = deliver msg_bytes

unfoldable pub drop_all : Intercept
drop_all from to msg_bytes context = drop

-- `x >> n`, and the wrapping sum and product of `u64`
abbrev pub shift_right : ℕ → ℕ → ℕ
shift_right x n = x / 2 ^ n

abbrev pub wrapping_add : ℕ → ℕ → ℕ
wrapping_add x y = (x + y) % 2 ^ 64

abbrev pub wrapping_mul : ℕ → ℕ → ℕ
wrapping_mul x y = x * y % 2 ^ 64

unfoldable pub splitmix64 : ℕ → ℕ
splitmix64 x =
    let x1 = wrapping_add x 11400714819323198485 in
    let x2 = wrapping_mul (bit_xor x1 (shift_right x1 30)) 13787848793156543929 in
    let x3 = wrapping_mul (bit_xor x2 (shift_right x2 27)) 10723151780598845931 in
    bit_xor x3 (shift_right x3 31)

-- The probability is an `f64`: `below hash rate` is whether `hash as f64 / u64::MAX as f64 < rate`.
pub record DropRate (F : Type 0) : Type 0 where
  pub rate : F
  pub seed : ℕ

module _ {F : Type 0} (below : ℕ → F → Bool) where
  unfoldable pub drop_rate : DropRate F → Intercept
  unfolding splitmix64
  drop_rate d from to msg_bytes context =
      let hash = splitmix64 (bit_xor (bit_xor d.seed context.message_id) context.current_tick) in
      if below hash d.rate then drop else deliver msg_bytes

-- `HashSet::contains` on the nodes that were collected.
unfoldable pub contains : NodeId → List NodeId → Bool
contains n [] = false
contains n (m ∷ set) = (m == n) || contains n set

pub record Partition : Type 0 where
  pub set_a : List NodeId
  pub set_b : List NodeId
  pub asymmetric : Bool

abbrev pub symmetric_partition : List NodeId → List NodeId → Partition
symmetric_partition a b = record { set_a = a; set_b = b; asymmetric = false }

abbrev pub asymmetric_partition : List NodeId → List NodeId → Partition
asymmetric_partition a b = record { set_a = a; set_b = b; asymmetric = true }

unfoldable pub partition : Partition → Intercept
unfolding contains
partition p from to msg_bytes context =
    let a_to_b = contains from p.set_a && contains to p.set_b in
    let b_to_a = contains from p.set_b && contains to p.set_a in
    if a_to_b || (not p.asymmetric && b_to_a) then drop else deliver msg_bytes

-- `DelayTicks(ticks)`
unfoldable pub delay_ticks : ℕ → Intercept
delay_ticks ticks from to msg_bytes context = delay msg_bytes ticks

unfoldable pub duplicate_all : Intercept
duplicate_all from to msg_bytes context = deliver_many (msg_bytes ∷ msg_bytes ∷ [])

-- `bytes[idx] ^= mask`, for an index in range.
unfoldable pub xor_at : ℕ → ℕ → Bytes → Bytes
xor_at idx mask [] = []
xor_at zero mask (b ∷ bytes) = bit_xor b mask ∷ bytes
xor_at (suc idx) mask (b ∷ bytes) = b ∷ xor_at idx mask bytes

-- `CorruptBytes { seed }`
unfoldable pub corrupt_bytes : ℕ → Intercept
unfolding splitmix64 xor_at
corrupt_bytes seed from to [] context = deliver []
corrupt_bytes seed from to (b ∷ bytes) context =
    let hash = splitmix64 (bit_xor seed context.message_id) in
    let idx = hash % length (b ∷ bytes) in
    let bit = shift_right hash 8 % 8 in deliver (xor_at idx (2 ^ bit) (b ∷ bytes))

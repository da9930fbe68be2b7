-- ===== src/Types/Generation.antt =====
-- `Generation` of dstate/src/types/node.rs and its order.
use Prim.Native.Nat.{compare, Ordering}
use dstate.Base.{nat_eq, ◌&&◌, ℕ, ◌<◌, ◌≡◌, ◌⊎◌, ◌↔◌, Bool, true, false, arith}

pub record Generation : Type 0 where
  pub incarnation : ℕ
  pub age : ℕ

-- `Generation::new`
abbrev pub new : ℕ → ℕ → Generation
new incarnation age = record { incarnation = incarnation; age = age }

-- `Generation::zero`
abbrev pub zero_generation : Generation
zero_generation = new 0 0

-- `Ordering::then`
abbrev pub ordering_then : Ordering → Ordering → Ordering
ordering_then Ordering.eq o = o
ordering_then Ordering.lt o = Ordering.lt
ordering_then Ordering.gt o = Ordering.gt

unfoldable pub cmp : Generation → Generation → Ordering
cmp a b = ordering_then (compare a.incarnation b.incarnation) (compare a.age b.age)

-- The operators `>`, `<` and `<=`, which Rust derives from `cmp`.
unfoldable pub gt : Generation → Generation → Bool
unfolding cmp
gt a b = elim (cmp a b) [ Ordering.gt ↦ true | _ ↦ false ]

unfoldable pub lt : Generation → Generation → Bool
unfolding cmp
lt a b = elim (cmp a b) [ Ordering.lt ↦ true | _ ↦ false ]

unfoldable pub le : Generation → Generation → Bool
unfolding cmp
le a b = elim (cmp a b) [ Ordering.gt ↦ false | _ ↦ true ]

-- `PartialEq`, derived field by field.
unfoldable pub eq : Generation → Generation → Bool
eq a b = nat_eq a.incarnation b.incarnation && nat_eq a.age b.age

unfoldable pub is_new_incarnation : Generation → Generation → Bool
is_new_incarnation a b = elim (compare a.incarnation b.incarnation) [
  | Ordering.gt ↦ true
  | _ ↦ false
]

-- `a` is newer than `b`: a later incarnation, or a greater age within the same one.
abbrev pub Newer : Generation → Generation → Type 0
Newer a b = (b.incarnation < a.incarnation) ⊎ ((b.incarnation ≡ a.incarnation) × (b.age < a.age))

pub gt_iff : (a b : Generation) → (gt a b ≡ true) ↔ Newer a b
unfolding gt
gt_iff a b = ground arith

pub gt-lt : (a b : Generation) → gt a b ≡ lt b a
unfolding gt lt
gt-lt a b = ground arith

pub gt_trans : (a b c : Generation) → gt a b ≡ true → gt b c ≡ true → gt a c ≡ true
unfolding gt
gt_trans a b c h k = ground arith

pub le-gt : (a b : Generation) → le a b ≡ true → gt a b ≡ false
unfolding gt le
le-gt a b h = ground arith

pub eq→≡ : (a b : Generation) → eq a b ≡ true → a ≡ b
unfolding eq
eq→≡ a b h = ground arith

pub antisym : (a b : Generation) → gt a b ≡ false → gt b a ≡ false → a ≡ b
unfolding gt
antisym a b h k = ground arith

pub gt→not_le : (a b : Generation) → gt a b ≡ true → le a b ≡ false
unfolding gt le
gt→not_le a b h = ground arith

pub not_le→gt : (a b : Generation) → le a b ≡ false → gt a b ≡ true
unfolding le gt
not_le→gt a b h = ground arith

-- ===== src/BTreeMap.antt =====
-- `std::collections::BTreeMap<String, V>`: an association list in the order of its keys. What does not
-- depend on the order is as for `HashMap`: `get`, `remove`, `contains_key` and `keys`, and
-- `insert` for what `get_mut` writes back at a key that is there.
use Prim.Native.Nat.{Ordering}
use Prim.Native.String.{compare}
use dstate.Base.{String, [], ◌∷◌}
use dstate.HashMap.{HashMap}

module _ {ℓ} {V : Type ℓ} where
  unfoldable pub insert_sorted : String → V → HashMap V → HashMap V
  insert_sorted k v [] = (k, v) ∷ []
  insert_sorted k v ((j, w) ∷ m) =
      let rest = insert_sorted k v m in
      elim (compare k j) [
        | Ordering.lt ↦ (k, v) ∷ (j, w) ∷ m
        | Ordering.eq ↦ (j, v) ∷ m
        | Ordering.gt ↦ (j, w) ∷ rest
      ]

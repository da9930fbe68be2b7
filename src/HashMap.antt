-- ===== src/HashMap.antt =====
-- `std::collections::HashMap<String, V>` as an association list with one entry for a key. The order
-- of the entries, in which Rust iterates at will, is part of the list.
pub mod Laws
use dstate.Base.{
  String, ℕ, Bool, Option, none, some, List, [], ◌∷◌, map, length, is_some, ◌==◌, if◌then◌else◌,
}

abbrev pub HashMap {ℓ} : Type ℓ → Type ℓ
HashMap V = List (String × V)

module _ {ℓ} {V : Type ℓ} where
  unfoldable pub get : String → HashMap V → Option V
  get k [] = none
  get k ((j, v) ∷ m) = if j == k then some v else get k m

  unfoldable pub insert : String → V → HashMap V → HashMap V
  insert k v [] = (k, v) ∷ []
  insert k v ((j, w) ∷ m) = if j == k then (j, v) ∷ m else (j, w) ∷ insert k v m

  unfoldable pub remove : String → HashMap V → HashMap V
  remove k [] = []
  remove k ((j, w) ∷ m) = let rest = remove k m in if j == k then rest else (j, w) ∷ rest

  unfoldable pub contains_key : String → HashMap V → Bool
  unfolding get
  contains_key k m = is_some (get k m)

  abbrev pub len : HashMap V → ℕ
  len m = length m

  abbrev pub keys : HashMap V → List String
  keys [] = []
  keys ((k, v) ∷ m) = k ∷ keys m

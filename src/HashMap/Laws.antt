-- ===== src/HashMap/Laws.antt =====
-- The laws of the map, in the form that `ground` and `simp` rewrite with, and its keys.
use dstate.Base.{
  String, ◌+◌, none, some, [], ◌∷◌, ◌≡◌, ◌≢◌, refl, arith, ◌==◌, eq_iff, if◌then◌else◌, NotIn,
  Nodup,
}
use dstate.HashMap.{HashMap, get, insert, remove, contains_key, keys, len}

module _ {ℓ} {V : Type ℓ} where
  pub get-insert :
      (k j : String) (v : V) (m : HashMap V)
      → get j (insert k v m) ≡ (if k == j then some v else get j m)
  unfolding get insert
  get-insert k j v [] = refl
  get-insert k j v ((i, w) ∷ m) =
      ground (arith, eq_iff k j, eq_iff i k, eq_iff i j, get-insert k j v m)

  pub get-remove :
      (k j : String) (m : HashMap V) → get j (remove k m) ≡ (if k == j then none else get j m)
  unfolding get remove
  get-remove k j [] = ground arith
  get-remove k j ((i, w) ∷ m) = ground (arith, eq_iff k j, eq_iff i k, eq_iff i j, get-remove k j m)

  pub NotIn-insert :
      (k j : String) (v : V) (m : HashMap V)
      → j ≢ k
      → NotIn j (keys m)
      → NotIn j (keys (insert k v m))
  unfolding insert
  NotIn-insert k j v [] h n = (h, tt)
  NotIn-insert k j v ((i, w) ∷ m) h n = ground (arith, eq_iff i k, NotIn-insert k j v m)

  -- Insertion keeps one entry for a key.
  pub insert-Nodup :
      (k : String) (v : V) (m : HashMap V) → Nodup (keys m) → Nodup (keys (insert k v m))
  unfolding insert
  insert-Nodup k v [] h = (tt, tt)
  insert-Nodup k v ((i, w) ∷ m) h =
      ground (arith, eq_iff i k, NotIn-insert k i v m, insert-Nodup k v m)

  pub NotIn-remove : (k j : String) (m : HashMap V) → NotIn j (keys m) → NotIn j (keys (remove k m))
  unfolding remove
  NotIn-remove k j [] n = tt
  NotIn-remove k j ((i, w) ∷ m) n = ground (arith, eq_iff i k, NotIn-remove k j m)

  pub remove-Nodup : (k : String) (m : HashMap V) → Nodup (keys m) → Nodup (keys (remove k m))
  unfolding remove
  remove-Nodup k [] h = tt
  remove-Nodup k ((i, w) ∷ m) h = ground (arith, eq_iff i k, NotIn-remove k i m, remove-Nodup k m)

  -- A new key makes the map one longer; an old one leaves its length.
  pub len-insert :
      (k : String) (v : V) (m : HashMap V)
      → len (insert k v m) ≡ (if contains_key k m then len m else len m + 1)
  unfolding insert contains_key get
  len-insert k v [] = omega arith
  len-insert k v ((i, w) ∷ m) = ground (arith, eq_iff i k, len-insert k v m)

  pub get-NotIn : (k : String) (m : HashMap V) → NotIn k (keys m) → get k m ≡ none
  unfolding get
  get-NotIn k [] n = refl
  get-NotIn k ((i, w) ∷ m) n = ground (arith, eq_iff i k, get-NotIn k m)

pub ruleset map_laws = (get-insert, get-remove)

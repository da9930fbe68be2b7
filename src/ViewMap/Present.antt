-- ===== src/ViewMap/Present.antt =====
-- Which writes of the view map of dstate/src/core/view_map.rs keep the entry of a node.
use dstate.Base.{◌≡◌, true, false, Option, inl, inr, arith, is_some, ◌==◌, eq_iff, Option-cases}
use dstate.HashMap
use dstate.HashMap.Laws.{get-insert, get-remove}
use dstate.Types.Envelope.{NodeId, StateViewObject}
use dstate.ViewMap.{ViewMap, get, update, insert_node, remove_node, update_if}

module _ {ℓ} {V : Type ℓ} where
  abbrev pub Present : NodeId → ViewMap V → Type 0
  Present j m = is_some (get j m) ≡ true

  pub update-Present :
      (k j : NodeId) (v : StateViewObject V) (m : ViewMap V)
      → Present j m
      → Present j (update k v m).0
  unfolding get update
  update-Present k j v m h = ground (arith, eq_iff k j, get-insert k j v m.inner)

  pub insert_node-Present :
      (k j : NodeId) (v : StateViewObject V) (m : ViewMap V)
      → Present j m
      → Present j (insert_node k v m).0
  unfolding get insert_node
  insert_node-Present k j v m h = ground (arith, eq_iff k j, get-insert k j v m.inner)

  pub remove_node-Present :
      (k j : NodeId) (m : ViewMap V)
      → (k == j) ≡ false
      → Present j m
      → Present j (remove_node k m).0
  unfolding get remove_node
  remove_node-Present k j m ne h = ground (arith, eq_iff k j, get-remove k j m.inner)

  pub update_if-Present :
      (k j : NodeId) (f : Option (StateViewObject V) → Option (StateViewObject V)) (m : ViewMap V)
      → Present j m
      → Present j (update_if k f m).0
  unfolding get update_if
  update_if-Present k j f m h = elim (Option-cases (f (HashMap.get k m.inner))) [
    | inl e ↦ ground (arith, eq_iff k j)
    | inr (v, e) ↦ ground (arith, eq_iff k j, get-insert k j v m.inner)
  ]

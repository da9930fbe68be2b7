-- ===== src/ViewMap/Laws.antt =====
-- Each write of the map, as a change of the function that `get` reads.
use dstate.Base.{
  ◌≡◌, refl, Option, none, some, arith, is_some, ◌==◌, eq_iff, if◌then◌else◌, Nodup, Option-cases,
  inl, inr,
}
use dstate.HashMap
use dstate.HashMap.Laws.{get-insert, get-remove, insert-Nodup, remove-Nodup}
use dstate.Types.Envelope.{NodeId, StateViewObject}
use dstate.ViewMap.{
  ViewMap, new, get, update, insert_node, upsert, remove_node, contains, update_if, node_ids,
}

module _ {ℓ} {V : Type ℓ} where
  pub get-new :
      (k j : NodeId) (v : StateViewObject V) → get j (new k v) ≡ (if k == j then some v else none)
  unfolding get new HashMap.get HashMap.insert
  get-new k j v = refl

  pub get-update :
      (k j : NodeId) (v : StateViewObject V) (m : ViewMap V)
      → get j (update k v m).0
        ≡ (if k == j then (if contains k m then some v else none) else get j m)
  unfolding get update contains HashMap.contains_key
  get-update k j v m = ground (arith, eq_iff k j, get-insert k j v m.inner)

  pub get-insert_node :
      (k j : NodeId) (v : StateViewObject V) (m : ViewMap V)
      → get j (insert_node k v m).0
        ≡ (if k == j then (if contains k m then get k m else some v) else get j m)
  unfolding get insert_node contains HashMap.contains_key
  get-insert_node k j v m = ground (arith, eq_iff k j, get-insert k j v m.inner)

  pub get-upsert :
      (k j : NodeId) (v : StateViewObject V) (m : ViewMap V)
      → get j (upsert k v m) ≡ (if k == j then some v else get j m)
  unfolding get upsert
  get-upsert k j v m = ground (arith, eq_iff k j, get-insert k j v m.inner)

  pub get-remove_node :
      (k j : NodeId) (m : ViewMap V)
      → get j (remove_node k m).0 ≡ (if k == j then none else get j m)
  unfolding get remove_node HashMap.contains_key
  get-remove_node k j m = ground (arith, eq_iff k j, get-remove k j m.inner)

  -- What `update_if` leaves at its own key.
  abbrev pub kept :
      Option (StateViewObject V) → Option (StateViewObject V) → Option (StateViewObject V)
  kept old none = old
  kept old (some new_view) = some new_view

  pub get-update_if :
      (k j : NodeId) (f : Option (StateViewObject V) → Option (StateViewObject V)) (m : ViewMap V)
      → get j (update_if k f m).0 ≡ (if k == j then kept (get k m) (f (get k m)) else get j m)
  unfolding get update_if
  get-update_if k j f m = elim (Option-cases (f (HashMap.get k m.inner))) [
    | inl e ↦ ground (arith, eq_iff k j)
    | inr (v, e) ↦ ground (arith, eq_iff k j, get-insert k j v m.inner)
  ]

  -- `update_if` says whether it wrote.
  pub update_if-written :
      (k : NodeId) (f : Option (StateViewObject V) → Option (StateViewObject V)) (m : ViewMap V)
      → (update_if k f m).1 ≡ is_some (f (get k m))
  unfolding get update_if
  update_if-written k f m = ground arith

  pub new-Nodup : (k : NodeId) (v : StateViewObject V) → Nodup (node_ids (new k v))
  unfolding new HashMap.insert
  new-Nodup k v = (tt, tt)

  pub update-Nodup :
      (k : NodeId) (v : StateViewObject V) (m : ViewMap V)
      → Nodup (node_ids m)
      → Nodup (node_ids (update k v m).0)
  unfolding update
  update-Nodup k v m h = ground (arith, insert-Nodup k v m.inner)

  pub insert_node-Nodup :
      (k : NodeId) (v : StateViewObject V) (m : ViewMap V)
      → Nodup (node_ids m)
      → Nodup (node_ids (insert_node k v m).0)
  unfolding insert_node
  insert_node-Nodup k v m h = ground (arith, insert-Nodup k v m.inner)

  pub remove_node-Nodup :
      (k : NodeId) (m : ViewMap V) → Nodup (node_ids m) → Nodup (node_ids (remove_node k m).0)
  unfolding remove_node
  remove_node-Nodup k m h = ground (arith, remove-Nodup k m.inner)

  pub update_if-Nodup :
      (k : NodeId) (f : Option (StateViewObject V) → Option (StateViewObject V)) (m : ViewMap V)
      → Nodup (node_ids m)
      → Nodup (node_ids (update_if k f m).0)
  unfolding update_if
  update_if-Nodup k f m h = elim (Option-cases (f (HashMap.get k m.inner))) [
    | inl e ↦ ground arith
    | inr (v, e) ↦ ground (arith, insert-Nodup k v m.inner)
  ]

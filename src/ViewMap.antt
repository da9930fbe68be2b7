-- ===== src/ViewMap.antt =====
-- `ViewMap` of dstate/src/core/view_map.rs: the views of all nodes by node id. One actor writes, so
-- the two levels of `ArcSwap` act as one map; an operation returns the map that it leaves.
pub mod Laws
pub mod Each
pub mod Present
use dstate.Base.{
  ℕ, ◌-◌, Bool, true, false, not, ◌&&◌, ◌||◌, Option, none, some, List, [], map, filter, is_some,
  ltb, ◌==◌, if◌then◌else◌,
}
use dstate.HashMap
use dstate.HashMap.{HashMap}
use dstate.Types.Config.{Duration, Instant}
use dstate.Types.Envelope.{NodeId, Clock, StateViewObject}

pub record ViewMap {ℓ} (V : Type ℓ) : Type ℓ where
  pub inner : HashMap (StateViewObject V)

module _ {ℓ} {V : Type ℓ} where
  unfoldable pub new : NodeId → StateViewObject V → ViewMap V
  new node_id initial_view = record { inner = HashMap.insert node_id initial_view [] }

  unfoldable pub get : NodeId → ViewMap V → Option (StateViewObject V)
  get node_id m = HashMap.get node_id m.inner

  unfoldable pub update : NodeId → StateViewObject V → ViewMap V → ViewMap V × Bool
  update node_id view m = elim (HashMap.get node_id m.inner) [
    | some entry ↦ (record { inner = HashMap.insert node_id view m.inner }, true)
    | none ↦ (m, false)
  ]

  unfoldable pub insert_node : NodeId → StateViewObject V → ViewMap V → ViewMap V × Bool
  insert_node node_id view m =
      if HashMap.contains_key node_id m.inner
      then (m, false)
      else (record { inner = HashMap.insert node_id view m.inner }, true)

  unfoldable pub upsert : NodeId → StateViewObject V → ViewMap V → ViewMap V
  upsert node_id view m = elim (HashMap.get node_id m.inner) [
    | some entry ↦ record { inner = HashMap.insert node_id view m.inner }
    | none ↦ record { inner = HashMap.insert node_id view m.inner }
  ]

  unfoldable pub remove_node : NodeId → ViewMap V → ViewMap V × Bool
  remove_node node_id m =
      if not (HashMap.contains_key node_id m.inner)
      then (m, false)
      else (record { inner = HashMap.remove node_id m.inner }, true)

  unfoldable pub contains : NodeId → ViewMap V → Bool
  contains node_id m = HashMap.contains_key node_id m.inner

  abbrev pub len : ViewMap V → ℕ
  len m = HashMap.len m.inner

  -- The views by node, as one map.
  abbrev pub snapshot : ViewMap V → HashMap (StateViewObject V)
  snapshot m = m.inner

  abbrev pub node_ids : ViewMap V → List NodeId
  node_ids m = HashMap.keys m.inner

  -- `Instant::duration_since` is zero where the argument is later.
  unfoldable pub is_stale : Instant → Duration → StateViewObject V → Bool
  is_stale now max_staleness vo =
      is_some vo.pending_remote_generation || ltb max_staleness (now - vo.synced_at)

  unfoldable pub stale_peers : NodeId → Duration → Clock → ViewMap V → List NodeId
  unfolding is_stale
  stale_peers local_node max_staleness clock m = HashMap.keys (
      filter (λ e. is_stale clock.now max_staleness e.1)
        (filter (λ e. not (e.0 == local_node)) m.inner))

  unfoldable pub update_if :
      NodeId
      → (Option (StateViewObject V) → Option (StateViewObject V))
      → ViewMap V
      → ViewMap V × Bool
  update_if node_id f m = elim (HashMap.get node_id m.inner) [
    | some current ↦ elim (f (some current)) [
      | some new_view ↦ (record { inner = HashMap.insert node_id new_view m.inner }, true)
      | none ↦ (m, false)
    ]
    | none ↦ elim (f none) [
      | some new_view ↦ (record { inner = HashMap.insert node_id new_view m.inner }, true)
      | none ↦ (m, false)
    ]
  ]

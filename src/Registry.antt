-- ===== src/Registry.antt =====
-- `StateRegistry` of dstate/src/registry.rs. A shard is whatever implements `AnyStateShard`: the
-- type of the shards and the three handlers are parameters, and a `TypeId` is a text.
use dstate.Base.{ℕ, String, not, none, some, List, [], ◌∷◌, ◌==◌, if◌then◌else◌}
use dstate.HashMap
use dstate.HashMap.{HashMap}
use dstate.Types.Envelope.{NodeId}
use dstate.Types.Errors.{
  Result, ok, err, RegistryError, state_not_registered, type_mismatch, duplicate_name,
}

-- `AnyStateShard`, with the `TypeId` of the shard's own type and that of the value that `as_any`
-- shows.
pub record AnyStateShard (A : Type 0) : Type 0 where
  pub state_name : A → String
  pub on_node_joined : NodeId → A → A
  pub on_node_left : NodeId → A → A
  pub type_id : A → String
  pub as_any : A → String

-- The type `T` of a typed lookup: its `TypeId` and its `type_name`.
pub record Requested : Type 0 where
  pub type_id : String
  pub type_name : String

pub record StateRegistry (A : Type 0) : Type 0 where
  pub shards : HashMap (String × A)

module _ {A : Type 0} where
  abbrev pub new : StateRegistry A
  new = record { shards = [] }

  abbrev pub len : StateRegistry A → ℕ
  len r = HashMap.len r.shards

  abbrev pub state_names : StateRegistry A → List String
  state_names r = HashMap.keys r.shards

  unfoldable pub lookup : String → StateRegistry A → Result RegistryError A
  lookup name r = elim (HashMap.get name r.shards) [
    | none ↦ err (state_not_registered name)
    | some (tid, shard) ↦ ok shard
  ]

  abbrev pub on_each : (A → A) → HashMap (String × A) → HashMap (String × A)
  on_each f [] = []
  on_each f ((name, (tid, shard)) ∷ rest) = (name, (tid, f shard)) ∷ on_each f rest

  module _ (any : AnyStateShard A) where
    unfoldable pub register :
        A → StateRegistry A → StateRegistry A × Result RegistryError (Unit {0})
    register shard r =
        if HashMap.contains_key (any.state_name shard) r.shards
        then (r, err (duplicate_name (any.state_name shard)))
        else (
          record {
            shards = HashMap.insert (any.state_name shard) (any.type_id shard, shard) r.shards;
          },
          ok tt,
        )

    unfoldable pub broadcast_node_joined : NodeId → StateRegistry A → StateRegistry A
    broadcast_node_joined node_id r = record {
      shards = on_each (any.on_node_joined node_id) r.shards;
    }

    unfoldable pub broadcast_node_left : NodeId → StateRegistry A → StateRegistry A
    broadcast_node_left node_id r = record { shards = on_each (any.on_node_left node_id) r.shards }

    unfoldable pub lookup_typed : Requested → String → StateRegistry A → Result RegistryError A
    lookup_typed t name r = elim (HashMap.get name r.shards) [
      | none ↦ err (state_not_registered name)
      | some (registered_tid, shard) ↦
          if not (registered_tid == t.type_id)
          then err (type_mismatch name t.type_name "different type")
          else if any.as_any shard == t.type_id
          then ok shard
          else err (type_mismatch name t.type_name "downcast failed")
    ]

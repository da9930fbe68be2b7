-- ===== src/Engine/Valid.antt =====
-- Well-formedness of the views of a node, and the operations of the shard that keep it.
use dstate.Base.{
  ℕ, ◌≡◌, refl, sym, ◌∙◌, ◌⊎◌, Bool, true, false, Option, none, some, inl, inr, arith, ◌==◌, eq_iff,
  eq_refl, Bool-cases, if◌then◌else◌, Nodup,
}
use dstate.HashMap
use dstate.HashMap.Laws.{get-insert, get-remove}
use dstate.Types.Envelope.{NodeId, Clock, StateObject, StateViewObject}
use dstate.Types.Generation
use dstate.Types.Generation.{Generation, gt, lt, le, not_le→gt}
use dstate.ViewMap
use dstate.ViewMap.{ViewMap, node_ids, contains}
use dstate.ViewMap.Laws.{
  get-new, get-remove_node, new-Nodup, update-Nodup, insert_node-Nodup, remove_node-Nodup,
  update_if-Nodup,
}
use dstate.ViewMap.Present.{
  Present, update-Present, insert_node-Present, remove_node-Present, update_if-Present,
}
use dstate.ViewMap.Each.{Each, Each-new, Each-map, Each-remove_node, Each-update, Each-insert_node}
use dstate.Shard.State.{ShardCore, InboundSnapshot, new}
use dstate.Shard.Mutation.{update_own_view}
use dstate.Shard.Inbound.{still_pending, accept_inbound_snapshot, accept_inbound_delta, mark_stale}
use dstate.Shard.Membership.{on_node_joined, on_node_left}
use dstate.Shard.Each.{
  update_own_view-Each, accept_inbound_snapshot-Each, accept_inbound_delta-cases, mark_stale-Each,
}
use dstate.Lifecycle.{LifecycleLogic, should_accept_from}

-- What a peer has announced is newer than what this node holds of it.
abbrev pub Ahead : Generation → Option Generation → Type 0
Ahead generation none = Unit
Ahead generation (some p) = gt p generation ≡ true

-- An entry stands under its own source, is behind what was announced, and is not that of a node
-- that has departed, unless it is this node's own.
abbrev pub IsSound : {V : Type 0} → NodeId → LifecycleLogic → NodeId → StateViewObject V → Type 0
IsSound self l j vo =
    (vo.source_node ≡ j)
    × Ahead vo.generation vo.pending_remote_generation
    × ((should_accept_from j l ≡ true) ⊎ (j ≡ self))

-- This node has its own entry, each node has one entry at most, and every entry is sound.
pub record IsValid {S V : Type 0} (l : LifecycleLogic) (s : ShardCore S V) : Type 0 where
  pub own : Present s.node_id s.views
  pub distinct : Nodup (node_ids s.views)
  pub sound : Each (IsSound s.node_id l) s.views

Ahead-still_pending : (g : Generation) (o : Option Generation) → Ahead g (still_pending g o)
unfolding lt gt
Ahead-still_pending g none = tt
Ahead-still_pending g (some p) = ground arith

zero_generation_lt : gt (Generation.new 1 0) Generation.zero_generation ≡ true
unfolding gt
zero_generation_lt = refl

module _ {S V : Type 0} (l : LifecycleLogic) where
  pub new-IsValid :
      (node_id : NodeId) (state : StateObject S) (view : V) (clock : Clock)
      → IsValid l (new node_id state view clock)
  unfolding new
  new-IsValid node_id state view clock = record {
    own = simp (get-new, eq_refl);
    distinct = new-Nodup node_id _;
    sound = Each-new node_id _ (refl, tt, inr refl);
  }

  pub update_own_view-IsValid :
      (clock : Clock) (view : V) (s : ShardCore S V)
      → IsValid l s
      → IsValid l (update_own_view clock view s)
  unfolding update_own_view
  update_own_view-IsValid clock view s h = record {
    own = update-Present s.node_id s.node_id _ s.views h.own;
    distinct = update-Nodup s.node_id _ s.views h.distinct;
    sound = update_own_view-Each clock view s h.sound (refl, tt, inr refl);
  }

  pub accept_inbound_snapshot-IsValid :
      (clock : Clock) (snap : InboundSnapshot V) (s : ShardCore S V)
      → should_accept_from snap.source l ≡ true
      → IsValid l s
      → IsValid l (accept_inbound_snapshot clock snap s).0
  unfolding accept_inbound_snapshot
  accept_inbound_snapshot-IsValid clock snap s present h = record {
    own = update_if-Present snap.source s.node_id _ s.views h.own;
    distinct = update_if-Nodup snap.source _ s.views h.distinct;
    sound =
        accept_inbound_snapshot-Each clock snap s h.sound (λ e. (refl, tt, inl present))
          (λ old e newer.
            (refl, Ahead-still_pending snap.generation old.pending_remote_generation, inl present));
  }

  pub accept_inbound_delta-IsValid :
      (clock : Clock) (source : NodeId) (g : Generation) (w : ℕ) (f : V → V) (s : ShardCore S V)
      → IsValid l s
      → IsValid l (accept_inbound_delta clock source g w f s).0
  accept_inbound_delta-IsValid clock source g w f s h =
      accept_inbound_delta-cases (IsValid l) clock source g w f s h (λ old e next. record {
        own = update-Present source s.node_id _ s.views h.own;
        distinct = update-Nodup source _ s.views h.distinct;
        sound = Each-update source _ s.views h.sound (
          refl,
          Ahead-still_pending g old.pending_remote_generation,
          (h.sound.at source old e).2,
        );
      })

  pub mark_stale-IsValid :
      (source : NodeId) (incarnation age : ℕ) (s : ShardCore S V)
      → IsValid l s
      → IsValid l (mark_stale source incarnation age s)
  unfolding mark_stale
  mark_stale-IsValid source incarnation age s h = record {
    own = update_if-Present source s.node_id _ s.views h.own;
    distinct = update_if-Nodup source _ s.views h.distinct;
    sound = mark_stale-Each source incarnation age s h.sound (λ old e newer.
        let (name, ahead, here) = h.sound.at source old e in (name, not_le→gt _ _ newer, here));
  }

  pub on_node_joined-IsValid :
      (clock : Clock) (node_id : NodeId) (default_view : V) (s : ShardCore S V)
      → should_accept_from node_id l ≡ true
      → IsValid l s
      → IsValid l (on_node_joined clock node_id default_view s)
  unfolding on_node_joined
  on_node_joined-IsValid clock node_id default_view s present h =
      elim (Bool-cases (node_id == s.node_id)) [
        | inl self ↦ rw self h
        | inr peer ↦ rw peer (record {
          own = insert_node-Present node_id s.node_id _ s.views h.own;
          distinct = insert_node-Nodup node_id _ s.views h.distinct;
          sound =
              Each-insert_node node_id _ s.views h.sound (refl, zero_generation_lt, inl present);
        })
      ]

  -- A view that is dropped for its version leaves the node a member.
  pub on_node_left-IsValid :
      (node_id : NodeId) (s : ShardCore S V) → IsValid l s → IsValid l (on_node_left node_id s)
  unfolding on_node_left
  on_node_left-IsValid node_id s h = elim (Bool-cases (node_id == s.node_id)) [
    | inl self ↦ rw self h
    | inr peer ↦ rw peer (record {
      own = remove_node-Present node_id s.node_id s.views peer h.own;
      distinct = remove_node-Nodup node_id s.views h.distinct;
      sound = Each-remove_node node_id s.views h.sound;
    })
  ]

-- The departed set when a node joins and when one leaves.
module _ (l : LifecycleLogic) where
  pub accepts-remove :
      (n j : NodeId)
      → should_accept_from j (record { departed_nodes = HashMap.remove n l.departed_nodes })
        ≡ (if n == j then true else should_accept_from j l)
  unfolding should_accept_from HashMap.contains_key
  accepts-remove n j = ground (arith, get-remove n j l.departed_nodes)

  pub accepts-insert :
      (n j : NodeId)
      → should_accept_from j (record { departed_nodes = HashMap.insert n tt l.departed_nodes })
        ≡ (if n == j then false else should_accept_from j l)
  unfolding should_accept_from HashMap.contains_key
  accepts-insert n j = ground (arith, get-insert n j tt l.departed_nodes)

module _ {S V : Type 0} (l : LifecycleLogic) where
  -- A node that joins is accepted from, whatever happened to it before.
  pub rejoined-IsValid :
      (n : NodeId) (s : ShardCore S V)
      → IsValid l s
      → IsValid (record { departed_nodes = HashMap.remove n l.departed_nodes }) s
  rejoined-IsValid n s h = record {
    own = h.own;
    distinct = h.distinct;
    sound = Each-map (λ j vo p. (p.0, p.1, wider j p.2)) h.sound;
  }
    where
      wider :
          (j : NodeId)
          → (should_accept_from j l ≡ true) ⊎ (j ≡ s.node_id)
          → (should_accept_from j (record { departed_nodes = HashMap.remove n l.departed_nodes })
              ≡ true)
            ⊎ (j ≡ s.node_id)
      wider j (inl a) = inl (accepts-remove l n j ∙ either (n == j) a)
        where
          either :
              (b : Bool)
              → should_accept_from j l ≡ true
              → (if b then true else should_accept_from j l) ≡ true
          either true q = refl
          either false q = q
      wider j (inr self) = inr self

  -- A node that leaves loses its entry before it is refused.
  pub departed-IsValid :
      (n : NodeId) (s : ShardCore S V)
      → IsValid l s
      → IsValid
          (record { departed_nodes = HashMap.insert n tt l.departed_nodes })
          (on_node_left n s)
  unfolding on_node_left
  departed-IsValid n s h = elim (Bool-cases (n == s.node_id)) [
    | inl self ↦ rw self (record {
      own = h.own;
      distinct = h.distinct;
      sound = Each-map (λ j vo p. (p.0, p.1, narrower j self p.2)) h.sound;
    })
    | inr peer ↦ rw peer (record {
      own = remove_node-Present n s.node_id s.views peer h.own;
      distinct = remove_node-Nodup n s.views h.distinct;
      sound = record { at = λ j vo e. others j vo (sym (get-remove_node n j s.views) ∙ e) };
    })
  ]
    where
      l' : LifecycleLogic
      l' = record { departed_nodes = HashMap.insert n tt l.departed_nodes }

      still :
          (j : NodeId)
          → (n == j) ≡ false
          → (should_accept_from j l ≡ true) ⊎ (j ≡ s.node_id)
          → (should_accept_from j l' ≡ true) ⊎ (j ≡ s.node_id)
      still j other (inl a) = inl (rw (accepts-insert l n j, other) a)
      still j other (inr own) = inr own

      narrower :
          (j : NodeId)
          → (n == s.node_id) ≡ true
          → (should_accept_from j l ≡ true) ⊎ (j ≡ s.node_id)
          → (should_accept_from j l' ≡ true) ⊎ (j ≡ s.node_id)
      narrower j self p = elim (Bool-cases (n == j)) [
        | inl same ↦ inr (sym ((eq_iff n j).0 same) ∙ (eq_iff n s.node_id).0 self)
        | inr other ↦ still j other p
      ]

      others :
          (j : NodeId) (vo : StateViewObject V)
          → (if n == j then none else ViewMap.get j s.views) ≡ some vo
          → IsSound s.node_id l' j vo
      others j vo e = elim (Bool-cases (n == j)) [
        | inl same ↦ cc (rw same at e)
        | inr other ↦
            let (name, ahead, here) = h.sound.at j vo (rw other at e) in
            (name, ahead, still j other here)
      ]

-- ===== src/Replica/Forward.antt =====
-- The generations that a node holds of its peers, before and after a message, in dstate/src/engine.rs.
use dstate.Base.{
  String, ◌<◌, ◌^◌, ◌≡◌, sym, ap, ◌∙◌, subst, true, false, Option, none, some, List, [], ◌∷◌, arith,
  ◌==◌, Bool-cases, inl, inr,
}
use dstate.Types.Envelope.{NodeId, Clock, StateViewObject}
use dstate.Types.Generation.{Generation, gt}
use dstate.Types.Message.{full_snapshot, delta_update, request_snapshot, WireMessage, sync, feed}
use dstate.ViewMap
use dstate.ViewMap.Each.{Each, some_injective}
use dstate.Shard.State.{applied}
use dstate.Shard.Inbound.{delta_verdict, should_accept}
use dstate.Shard.Each.{
  accept_inbound_snapshot-Each, accept_inbound_delta-Each, mark_stale-Each, on_node_left-Each,
}
use dstate.ChangeFeed.{route_inbound_batch}
use dstate.Lifecycle.{should_accept_from}
use dstate.Engine.State.{Engine, EngineAction, own_view_value}
use dstate.Engine.Inbound.{
  reply_own, handle_request_snapshot, handle_inbound_sync, handle_inbound_change_feed,
  handle_inbound, feed_entry, feed_entries,
}
use dstate.Engine.Shards.{handle_full_snapshot-shard, handle_delta_update-shard, feed_entry-shard}

not_behind_self : (g h : Generation) → g ≡ h → gt g h ≡ false
unfolding gt
not_behind_self g h e = ground arith

not_behind_newer : (g h : Generation) → should_accept h g ≡ true → gt g h ≡ false
unfolding gt should_accept
not_behind_newer g h e = ground arith

not_behind_delta :
    (g old : Generation)
    → old.age < 2 ^ 64
    → 0 < g.age
    → delta_verdict g old ≡ applied
    → gt old g ≡ false
unfolding gt delta_verdict
not_behind_delta g old bounded positive e = ground arith

-- The age of a delta is positive; nothing is asked of the other messages.
abbrev pub IsAged : WireMessage → Type 0
IsAged (sync (delta_update name source g w bytes)) = 0 < g.age
IsAged (sync (full_snapshot name source g w bytes)) = Unit
IsAged (sync (request_snapshot name requester)) = Unit
IsAged (feed batch) = Unit

module _ {S V : Type 0} (e : Engine S V) where
  -- The view is not older than the one that `e` has of the node.
  NotBehind : NodeId → StateViewObject V → Type 0
  NotBehind j vo =
      (old : StateViewObject V)
      → ViewMap.get j e.shard.views ≡ some old
      → gt old.generation vo.generation ≡ false

  Forward : Engine S V → Type 0
  Forward r = Each NotBehind r.shard.views

  Forward-refl : Forward e
  unfolding Forward NotBehind
  Forward-refl = record {
    at = λ j vo held old before.
        not_behind_self old.generation vo.generation
          (ap (λ (x : StateViewObject V). x.generation) (some_injective (sym before ∙ held)));
  }

  MaybeForward : Option (Engine S V × List EngineAction) → Type 0
  MaybeForward none = Unit
  MaybeForward (some q) = Forward q.0

  reply_own-MaybeForward : (m : NodeId) (o : Option V) → MaybeForward (reply_own m o e)
  unfolding MaybeForward Forward
  reply_own-MaybeForward m none = tt
  reply_own-MaybeForward m (some v) = Forward-refl

  handle_request_snapshot-MaybeForward :
      (name : String) (requester : NodeId) → MaybeForward (handle_request_snapshot name requester e)
  unfolding handle_request_snapshot MaybeForward
  handle_request_snapshot-MaybeForward name requester = elim (Bool-cases (name == e.state_name)) [
    | inr other ↦ rw other Forward-refl
    | inl own ↦ elim (Bool-cases (should_accept_from requester e.lifecycle)) [
      | inr departed ↦ rw (own, departed) Forward-refl
      | inl present ↦ rw (own, present) (reply_own-MaybeForward requester (own_view_value e))
    ]
  ]

  feed_entries-Forward :
      (entries : List (String × NodeId × Generation)) (r : Engine S V)
      → Forward r
      → Forward (feed_entries entries r)
  unfolding feed_entries NotBehind
  feed_entries-Forward [] r h = h
  feed_entries-Forward (entry ∷ rest) r h = feed_entries-Forward rest (feed_entry entry r) (
      feed_entry-shard Forward (λ d x p. unfold Forward in p) entry r h
        (unfold Forward in
          mark_stale-Each entry.1 entry.2.incarnation entry.2.age r.shard h
            (λ old at newer. h.at entry.1 old at)))

  -- The ages of the views are `u64`.
  abbrev pub IsBounded : Type 0
  IsBounded = Each (λ j vo. vo.generation.age < 2 ^ 64) e.shard.views

  handle_inbound-MaybeForward :
      (clock : Clock) (msg : WireMessage)
      → IsBounded
      → IsAged msg
      → MaybeForward (handle_inbound clock msg e)
  unfolding handle_inbound handle_inbound_sync handle_inbound_change_feed MaybeForward Forward
      NotBehind
  handle_inbound-MaybeForward clock (sync (full_snapshot name source g w bytes)) bounded aged =
      handle_full_snapshot-shard Forward (λ d x p. p) clock name source g w bytes e Forward-refl
        (on_node_left-Each source e.shard Forward-refl)
        (λ v present read.
          accept_inbound_snapshot-Each clock _ e.shard Forward-refl (λ absent old before. cc)
            (λ held at newer old before. not_behind_newer old.generation g (
              ap (λ (x : StateViewObject V). should_accept g x.generation)
                (some_injective (sym before ∙ at))
              ∙ newer)))
  handle_inbound-MaybeForward clock (sync (delta_update name source g w bytes)) bounded aged =
      handle_delta_update-shard Forward (λ d x p. p) clock name source g w bytes e Forward-refl
        (on_node_left-Each source e.shard Forward-refl)
        (λ applier current v a c made.
          accept_inbound_delta-Each clock source g w (λ x. v) e.shard Forward-refl
            (λ held at next old before.
              not_behind_delta g old.generation (bounded.at source old before) aged (
                ap (λ (x : StateViewObject V). delta_verdict g x.generation)
                  (some_injective (sym before ∙ at))
                ∙ next)))
  handle_inbound-MaybeForward clock (sync (request_snapshot name requester)) bounded aged =
      handle_request_snapshot-MaybeForward name requester
  handle_inbound-MaybeForward clock (feed batch) bounded aged =
      feed_entries-Forward (route_inbound_batch batch e.shard.node_id) e Forward-refl

-- The ages of the views are `u64` and that of a delta is positive. Then no message, a feed included,
-- takes a view back: what the node holds of a peer before and after it is not older afterwards.
pub handle_inbound_forward :
    {S V : Type 0} (clock : Clock) (msg : WireMessage) (e e' : Engine S V)
    (actions : List EngineAction) (j : NodeId) (old new : StateViewObject V)
    → IsBounded e
    → IsAged msg
    → handle_inbound clock msg e ≡ some (e', actions)
    → ViewMap.get j e.shard.views ≡ some old
    → ViewMap.get j e'.shard.views ≡ some new
    → gt old.generation new.generation ≡ false
unfolding MaybeForward Forward NotBehind
handle_inbound_forward clock msg e e' actions j old new bounded aged returned before after =
    (subst (MaybeForward e) returned (handle_inbound-MaybeForward e clock msg bounded aged)).at j
      new after old before

-- ===== src/Actor/Delivery.antt =====
-- From one actor to another: a mutation on the first reaches the view of the second.
use dstate.Base.{
  ◌≡◌, ◌≢◌, refl, sym, ap, subst, ◌∙◌, true, inl, inr, some, List, [], ◌∷◌, ◌++◌, arith, In, eq_iff,
}
use dstate.HashMap
use dstate.Types.Config.{SyncUrgency}
use dstate.Types.Envelope.{NodeId, Clock, StateViewObject}
use dstate.Types.Errors.{ok}
use dstate.Types.Generation.{gt}
use dstate.Types.Message.{SyncMessage}
use dstate.Shard.State.{get_view}
use dstate.Lifecycle.{should_accept_from}
use dstate.Engine.State.{EngineAction, broadcast_sync}
use dstate.Engine.Outbound.{mutate}
use dstate.Engine.Inbound.{handle_inbound}
use dstate.Engine.Snapshot.{accept_view}
use dstate.Engine.Keeps.{WellFormed}
use dstate.Engine.Invariant.{mutate-Keeps}
use dstate.Laws.Announce.{mutate_announces, next_generation, snapshot_at}
use dstate.Laws.Recovery.{snapshot_installed, Holds}
use dstate.Actor.Messages.{mutate_message, inbound_sync}
use dstate.Actor.Routing.{
  PeerRegistry, StateActor, sends_sync, sync_all, other_senders, route_each, route_action,
  route_actions, Effects, no_effects,
}
use dstate.Actor.Handlers.{handle, routed, routed?}

module _ {P : Type 0} where
  -- The sender of another node is among those of a broadcast.
  broadcast_reaches :
      (id own : NodeId) (sender : P) (msg : SyncMessage) (peers : PeerRegistry P)
      → HashMap.get id peers ≡ some sender
      → id ≢ own
      → In (sends_sync sender msg) (sync_all msg (other_senders own peers))
  unfolding HashMap.get other_senders
  broadcast_reaches id own sender msg [] e h = ground arith
  broadcast_reaches id own sender msg ((j, p) ∷ peers) e h =
      ground (arith, eq_iff j id, eq_iff j own, broadcast_reaches id own sender msg peers)

In-append_left : {A : Type 0} (a : A) (xs ys : List A) → In a xs → In a (xs ++ ys)
In-append_left a [] ys h = absurd h
In-append_left a (x ∷ xs) ys (inl e) = inl e
In-append_left a (x ∷ xs) ys (inr h) = inr (In-append_left a xs ys h)

module _ {S V P : Type 0} where
  broadcast_routed :
      (id own : NodeId) (sender : P) (msg : SyncMessage) (actions : List EngineAction)
      (a : StateActor S V P)
      → actions ≡ broadcast_sync msg ∷ []
      → a.engine.shard.node_id ≡ own
      → HashMap.get id a.peers ≡ some sender
      → id ≢ own
      → In (sends_sync sender msg) (route_actions actions a).calls
  unfolding route_actions route_each route_action
  broadcast_routed id own sender msg actions a only same e h =
      subst (λ l. In (sends_sync sender msg) (route_actions l a).calls) (sym only)
        (In-append_left _ _ [] (
          broadcast_reaches id a.engine.shard.node_id sender msg a.peers e
            (λ back. h (back ∙ same))))

module _ {S V P Q : Type 0} where
  -- Let an actor with a well-formed engine have a sender to another node registered, and let the actor
  -- of that node have the same state name, have not seen the first node leave, hold a view of it that
  -- is older than the next generation, and be able to read the new view in the wire version of
  -- the first. Then a mutation with immediate urgency on the first actor calls that sender with a
  -- snapshot, and the other actor, when it handles the snapshot, sends nothing and then holds
  -- the new generation and view of the first node.
  pub mutate-handle :
      (c1 c2 : Clock) (f : S → S) (p : S → V) (id : NodeId) (sender : P) (a : StateActor S V P)
      (b : StateActor S V Q) (current : StateViewObject V)
      → let self = a.engine.shard.node_id in
        let g = next_generation a.engine.shard.state.generation in
        let view = p (f a.engine.shard.state.value) in
        WellFormed a.engine
        → HashMap.get id a.peers ≡ some sender
        → id ≢ self
        → a.engine.state_name ≡ b.engine.state_name
        → should_accept_from self b.engine.lifecycle ≡ true
        → get_view self b.engine.shard ≡ some current
        → gt g current.generation ≡ true
        → b.engine.deserialize_view (a.engine.serialize_view view) a.engine.wire_version ≡ ok view
        → (msg : SyncMessage) × (a' : StateActor S V P) × (sent : Effects P) × (b' : StateActor S V
            Q)
          × (handle c1 (mutate_message f p SyncUrgency.immediate) a ≡ some (a', sent))
          × In (sends_sync sender msg) sent.calls
          × (handle c2 (inbound_sync msg) b ≡ some (b', no_effects))
          × Holds self g view b'.engine
  unfolding handle handle_inbound route_actions route_each route_action
  mutate-handle c1 c2 f p id sender a b current valid registered other named present held newer
        reads =
      let self = a.engine.shard.node_id in
      let g = next_generation a.engine.shard.state.generation in
      let view = p (f a.engine.shard.state.value) in
      let msg = snapshot_at a.engine g (a.engine.serialize_view view) in
      let r = mutate c1 f p SyncUrgency.immediate a.engine in
      let announced = mutate_announces c1 f p SyncUrgency.immediate a.engine valid in
      let own = (mutate-Keeps c1 f p SyncUrgency.immediate a.engine valid).1 in
      let installed =
        snapshot_installed c2 self a.engine.state_name g a.engine.wire_version
          (a.engine.serialize_view view) b.engine current view named present held newer reads in
      (
        msg,
        (routed a (r.0, r.1.actions)).0,
        (routed a (r.0, r.1.actions)).1,
        record b { engine = accept_view c2 self g a.engine.wire_version view b.engine },
        refl,
        broadcast_routed id self sender msg r.1.actions (record a { engine = r.0 }) announced.3 own
            registered other,
        ap (routed? b) installed.0,
        installed.1,
      )

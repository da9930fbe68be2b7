-- ===== src/Actor/Safety.antt =====
-- What the peers of a `StateActor` can rely on: who is never sent to, and silence after the stop.
use dstate.Base.{
  ◌≡◌, ◌≢◌, refl, sym, ap, ◌∙◌, true, Option, none, some, List, [], ◌∷◌, arith, eq_iff,
}
use dstate.HashMap
use dstate.Types.Envelope.{NodeId, Clock}
use dstate.Engine.Keeps.{WellFormed}
use dstate.Engine.Invariant.{on_node_left-WellFormed, on_node_left-node}
use dstate.Actor.Messages.{node_left, cluster_change}
use dstate.Actor.Routing.{PeerRegistry, StateActor, DelayedTask, SenderCall, fire}
use dstate.Actor.Handlers.{handle, handle_cluster_change, on_stop}
use dstate.Actor.Life.{
  Input, World, handles, registers, unregisters, wakes, stops, step, live, then_calls, take_task,
  woken,
}
use dstate.Actor.Recipients.{AllTo, OthersIn, TasksOf, TasksOf-append}
use dstate.Actor.Reach.{AllRegisterIn, live-Sends}

module _ {P : Type 0} (of : P → NodeId) where
  -- Every sender is registered under the node that it sends to.
  abbrev pub Addressed : PeerRegistry P → Type 0
  Addressed [] = Unit
  Addressed ((id, p) ∷ peers) = (of p ≡ id) × Addressed peers

  -- Not a sender to the node itself, or to the one that is gone.
  abbrev pub Elsewhere : NodeId → NodeId → P → Type 0
  Elsewhere own gone p = (of p ≢ own) × (of p ≢ gone)

  removed_others :
      (own gone : NodeId) (peers : PeerRegistry P)
      → Addressed peers
      → OthersIn (Elsewhere own gone) own (HashMap.remove gone peers)
  unfolding HashMap.remove
  removed_others own gone [] h = tt
  removed_others own gone ((id, p) ∷ peers) h =
      ground (arith, eq_iff id gone, removed_others own gone peers)

module _ {S V P : Type 0} (of : P → NodeId) where
  -- The inputs register senders under their nodes, and none under `gone`.
  abbrev pub AllAddressed : NodeId → List (Input S V P) → Type 0
  AllAddressed gone [] = Unit
  AllAddressed gone (registers id p ∷ inputs) = (of p ≡ id) × (id ≢ gone) × AllAddressed gone inputs
  AllAddressed gone (_ ∷ inputs) = AllAddressed gone inputs

  register-Elsewhere :
      (own gone : NodeId) (inputs : List (Input S V P))
      → AllAddressed gone inputs
      → AllRegisterIn (Elsewhere of own gone) own inputs
  register-Elsewhere own gone [] h = tt
  register-Elsewhere own gone (registers id p ∷ inputs) h = (
    λ other. (λ e. other (sym h.0 ∙ e), λ e. h.1 (sym h.0 ∙ e)),
    register-Elsewhere own gone inputs h.2,
  )
  register-Elsewhere own gone (handles clock msg ∷ inputs) h =
      (tt, register-Elsewhere own gone inputs h)
  register-Elsewhere own gone (unregisters n ∷ inputs) h =
      (tt, register-Elsewhere own gone inputs h)
  register-Elsewhere own gone (wakes n ∷ inputs) h = (tt, register-Elsewhere own gone inputs h)
  register-Elsewhere own gone (stops ∷ inputs) h = (tt, register-Elsewhere own gone inputs h)

  -- Let every sender be registered under the node that it sends to. After a well-formed actor has
  -- handled that `gone` left, it and the tasks that it has spawned, before and after, run through any list
  -- of inputs that does not register `gone` again without a panic, and never call a
  -- sender to `gone` or to the actor's own node.
  pub left-unsent :
      (clock : Clock) (gone : NodeId) (inputs : List (Input S V P)) (w : World S V P)
      → WellFormed w.actor.engine
      → Addressed of w.actor.peers
      → TasksOf w.actor.engine.shard.node_id w.sleeping
      → AllAddressed gone inputs
      → (w' : World S V P) × (calls : List (SenderCall P)) × (live
            (handles clock (cluster_change (node_left gone)) ∷ inputs)
            w
          ≡ some (w', calls))
        × AllTo (Elsewhere of w.actor.engine.shard.node_id gone) calls
  unfolding live step handle handle_cluster_change
  left-unsent clock gone inputs w valid addressed tasks h =
      let own = w.actor.engine.shard.node_id in
      let s =
        live-Sends (Elsewhere of own gone) own inputs _ (register-Elsewhere own gone inputs h)
          (record {
            well_formed = on_node_left-WellFormed gone w.actor.engine valid;
            node = on_node_left-node gone w.actor.engine;
            others = removed_others of own gone w.actor.peers addressed;
            tasks = TasksOf-append own w.sleeping [] tasks tt;
          }) in
      (s.result.0, s.result.1, ap (then_calls []) s.returns, s.calls)

module _ {S V P : Type 0} where
  -- No message is handled.
  abbrev pub NoneHandled : List (Input S V P) → Type 0
  NoneHandled [] = Unit
  NoneHandled (handles clock msg ∷ inputs) = ⊥
  NoneHandled (_ ∷ inputs) = NoneHandled inputs

  woken_silent :
      (o : Option DelayedTask) (a : StateActor S V P) → a.cancel_token ≡ true → woken o a ≡ []
  unfolding fire
  woken_silent none a h = refl
  woken_silent (some task) a h = rw h refl

  cancelled_silent :
      (inputs : List (Input S V P)) (w : World S V P)
      → w.actor.cancel_token ≡ true
      → NoneHandled inputs
      → (w' : World S V P) × (live inputs w ≡ some (w', []))
  unfolding live step on_stop
  cancelled_silent [] w c h = (w, refl)
  cancelled_silent (handles clock msg ∷ inputs) w c h = absurd h
  cancelled_silent (registers n p ∷ inputs) w c h =
      let r = cancelled_silent inputs _ c h in (r.0, ap (then_calls []) r.1)
  cancelled_silent (unregisters n ∷ inputs) w c h =
      let r = cancelled_silent inputs _ c h in (r.0, ap (then_calls []) r.1)
  cancelled_silent (wakes n ∷ inputs) w c h =
      let taken = take_task n w.sleeping in
      let r = cancelled_silent inputs (record w { sleeping = taken.1 }) c h in
      (r.0, ap (then_calls (woken taken.0 w.actor)) r.1 ∙ rw (woken_silent taken.0 w.actor c) refl)
  cancelled_silent (stops ∷ inputs) w c h =
      let r = cancelled_silent inputs _ refl h in (r.0, ap (then_calls []) r.1)

  -- Once the actor has stopped, and so handles no more messages, no call is made on any sender,
  -- whichever tasks wake up and whatever is registered meanwhile.
  pub stopped-silent :
      (inputs : List (Input S V P)) (w : World S V P)
      → NoneHandled inputs
      → (w' : World S V P) × (live (stops ∷ inputs) w ≡ some (w', []))
  unfolding live step on_stop
  stopped-silent inputs w h =
      let r = cancelled_silent inputs (record w { actor = on_stop w.actor }) refl h in
      (r.0, ap (then_calls []) r.1)

-- ===== src/Actor/Reach.antt =====
-- The recipients of every call in the life of a `StateActor`.
use dstate.Base.{
  ◌≡◌, ◌≢◌, refl, sym, ap, subst, ◌∙◌, ℕ, zero, suc, Option, some, List, [], ◌∷◌, ◌++◌,
}
use dstate.Types.Envelope.{NodeId}
use dstate.Types.Message.{sync}
use dstate.Engine.State.{EngineAction}
use dstate.Engine.Events as Events
use dstate.Engine.Events.{Event, mutates, receives, flushes, joins, leaves, syncs}
use dstate.Engine.Inbound.{handle_inbound}
use dstate.Engine.Outbound.{flush_change_feed}
use dstate.Engine.Query.{query}
use dstate.Engine.Keeps.{WellFormed}
use dstate.Engine.Invariant.{step-Keeps, on_node_left-WellFormed, on_node_left-node}
use dstate.Actor.Messages.{
  node_joined, node_left, mutate_message, inbound_sync, inbound_wire, query_views, cluster_change,
  periodic_sync_message, flush_change_feed_message,
}
use dstate.Actor.Routing.{StateActor, DelayedTask, SenderCall, route_actions}
use dstate.Actor.Handlers.{
  handle, handle_query, handle_cluster_change, handle_flush, on_stop, routed?,
}
use dstate.Actor.Life.{
  Input, World, handles, registers, unregisters, wakes, stops, step, live, handled, onward,
  then_calls, take_task, woken,
}
use dstate.Actor.Recipients.{
  AllTo, AllTo-append, OthersIn, OthersIn-insert, OthersIn-remove, TasksOf, TasksOf-append,
  route_actions-AllTo, route_actions-TasksOf, feed_calls-AllTo, fire-AllTo,
}

taken-TasksOf :
    (own : NodeId) (n : ℕ) (tasks : List DelayedTask)
    → TasksOf own tasks
    → TasksOf own (take_task n tasks).1
taken-TasksOf own n [] h = tt
taken-TasksOf own zero (task ∷ tasks) h = h.1
taken-TasksOf own (suc n) (task ∷ tasks) h = (h.0, taken-TasksOf own n tasks h.1)

module _ {S V P : Type 0} where
  -- The well-formed actor of the node `own`, whose registry and tasks reach only senders in `Q`.
  pub record Reaches (Q : P → Type 0) (own : NodeId) (w : World S V P) : Type 0 where
    pub well_formed : WellFormed w.actor.engine
    pub node : w.actor.engine.shard.node_id ≡ own
    pub others : OthersIn Q own w.actor.peers
    pub tasks : TasksOf own w.sleeping

  pub record Sends (Q : P → Type 0) (own : NodeId) (o : Option (World S V P × List (SenderCall P)))
      : Type 0 where
    pub result : World S V P × List (SenderCall P)
    pub returns : o ≡ some result
    pub reaches : Reaches Q own result.0
    pub calls : AllTo Q result.1

  -- The other nodes that an input registers have their senders in `Q`.
  abbrev pub RegistersIn : (P → Type 0) → NodeId → Input S V P → Type 0
  RegistersIn Q own (registers id p) = id ≢ own → Q p
  RegistersIn Q own _ = Unit

  abbrev pub AllRegisterIn : (P → Type 0) → NodeId → List (Input S V P) → Type 0
  AllRegisterIn Q own [] = Unit
  AllRegisterIn Q own (input ∷ inputs) = RegistersIn Q own input × AllRegisterIn Q own inputs

  routed-Reaches :
      (Q : P → Type 0) (own : NodeId) (actions : List EngineAction) (a : StateActor S V P)
      (tasks : List DelayedTask)
      → Reaches Q own (record { actor = a; sleeping = tasks })
      → (let r = route_actions actions a in
          Reaches Q own (record { actor = a; sleeping = tasks ++ r.spawned }) × AllTo Q r.calls)
  routed-Reaches Q own actions a tasks h = (
    record {
      well_formed = h.well_formed;
      node = h.node;
      others = h.others;
      tasks = TasksOf-append own tasks _ h.tasks (
          subst (λ n. TasksOf n (route_actions actions a).spawned) h.node
            (route_actions-TasksOf actions a));
    },
    route_actions-AllTo Q actions a (subst (λ n. OthersIn Q n a.peers) (sym h.node) h.others),
  )

  routed-Sends :
      (Q : P → Type 0) (own : NodeId) (event : Event S V Unit Unit) (w : World S V P)
      → Reaches Q own w
      → Sends Q own (handled w.sleeping (routed? w.actor (Events.step event w.actor.engine)))
  routed-Sends Q own event w h =
      let k = step-Keeps event w.actor.engine h.well_formed in
      let a' = record (w.actor) { engine = k.result.0 } in
      let r = routed-Reaches Q own k.result.1 a' w.sleeping (record {
        well_formed = k.well_formed;
        node = k.same_node ∙ h.node;
        others = h.others;
        tasks = h.tasks;
      }) in
      record {
        result = _;
        returns = ap (λ o. handled w.sleeping (routed? w.actor o)) k.returns;
        reaches = r.0;
        calls = r.1;
      }

  woken-AllTo :
      (Q : P → Type 0) (own : NodeId) (n : ℕ) (tasks : List DelayedTask) (a : StateActor S V P)
      → TasksOf own tasks
      → OthersIn Q own a.peers
      → AllTo Q (woken (take_task n tasks).0 a)
  woken-AllTo Q own n [] a h o = tt
  woken-AllTo Q own zero (task ∷ tasks) a h o =
      fire-AllTo Q a.cancel_token a.peers task (subst (λ n. OthersIn Q n a.peers) (sym h.0) o)
  woken-AllTo Q own (suc n) (task ∷ tasks) a h o = woken-AllTo Q own n tasks a h.1 o

  step-Sends :
      (Q : P → Type 0) (own : NodeId) (input : Input S V P) (w : World S V P)
      → RegistersIn Q own input
      → Reaches Q own w
      → Sends Q own (step input w)
  unfolding step handle Events.step handle_query handle_cluster_change handle_flush handle_inbound
      on_stop flush_change_feed
  step-Sends Q own (handles clock (mutate_message f p urgency)) w q h =
      routed-Sends Q own (mutates clock f p urgency) w h
  step-Sends Q own (handles clock (inbound_sync msg)) w q h =
      routed-Sends Q own (receives clock (sync msg)) w h
  step-Sends Q own (handles clock (inbound_wire msg)) w q h =
      routed-Sends Q own (receives clock msg) w h
  step-Sends Q own (handles clock (query_views d)) w q h =
      let r = routed-Reaches Q own (query clock d (λ m. m) w.actor.engine).1 w.actor w.sleeping h in
      record { result = _; returns = refl; reaches = r.0; calls = r.1 }
  step-Sends Q own (handles clock (cluster_change (node_joined n v))) w q h =
      routed-Sends Q own (joins clock n v) w h
  step-Sends Q own (handles clock (cluster_change (node_left n))) w q h = record {
    result = _;
    returns = refl;
    reaches = record {
      well_formed = on_node_left-WellFormed n w.actor.engine h.well_formed;
      node = on_node_left-node n w.actor.engine ∙ h.node;
      others = OthersIn-remove Q own n w.actor.peers h.others;
      tasks = TasksOf-append own w.sleeping [] h.tasks tt;
    };
    calls = tt;
  }
  step-Sends Q own (handles clock periodic_sync_message) w q h = routed-Sends Q own syncs w h
  step-Sends Q own (handles clock flush_change_feed_message) w q h = record {
    result = _;
    returns = refl;
    reaches = record {
      well_formed = h.well_formed;
      node = h.node;
      others = h.others;
      tasks = TasksOf-append own w.sleeping [] h.tasks tt;
    };
    calls = feed_calls-AllTo Q _ _ (subst (λ n. OthersIn Q n w.actor.peers) (sym h.node) h.others);
  }
  step-Sends Q own (registers n p) w q h = record {
    result = _;
    returns = refl;
    reaches = record {
      well_formed = h.well_formed;
      node = h.node;
      others = OthersIn-insert Q own n p w.actor.peers q h.others;
      tasks = h.tasks;
    };
    calls = tt;
  }
  step-Sends Q own (unregisters n) w q h = record {
    result = _;
    returns = refl;
    reaches = record {
      well_formed = h.well_formed;
      node = h.node;
      others = OthersIn-remove Q own n w.actor.peers h.others;
      tasks = h.tasks;
    };
    calls = tt;
  }
  step-Sends Q own (wakes n) w q h = record {
    result = _;
    returns = refl;
    reaches = record {
      well_formed = h.well_formed;
      node = h.node;
      others = h.others;
      tasks = taken-TasksOf own n w.sleeping h.tasks;
    };
    calls = woken-AllTo Q own n w.sleeping w.actor h.tasks h.others;
  }
  step-Sends Q own stops w q h = record {
    result = _;
    returns = refl;
    reaches = record {
      well_formed = h.well_formed;
      node = h.node;
      others = h.others;
      tasks = h.tasks;
    };
    calls = tt;
  }

  pub live-Sends :
      (Q : P → Type 0) (own : NodeId) (inputs : List (Input S V P)) (w : World S V P)
      → AllRegisterIn Q own inputs
      → Reaches Q own w
      → Sends Q own (live inputs w)
  unfolding live
  live-Sends Q own [] w q h = record { result = _; returns = refl; reaches = h; calls = tt }
  live-Sends Q own (input ∷ inputs) w q h =
      let s = step-Sends Q own input w q.0 h in
      let r = live-Sends Q own inputs s.result.0 q.1 s.reaches in
      record {
        result = _;
        returns = ap (onward (live inputs)) s.returns ∙ ap (then_calls s.result.1) r.returns;
        reaches = r.reaches;
        calls = AllTo-append Q s.result.1 r.result.1 s.calls r.calls;
      }

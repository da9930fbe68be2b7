-- ===== src/Actor/Refines.antt =====
-- A life of the actor refines a run of its engine, and no input panics.
use dstate.Base.{◌≡◌, refl, ap, ◌∙◌, Option, none, some, List, [], ◌∷◌, ◌++◌}
use dstate.Types.Message.{sync}
use dstate.Engine.State.{Engine, EngineAction}
use dstate.Engine.Events as Events
use dstate.Engine.Events.{Event, mutates, receives, flushes, joins, leaves, syncs, run}
use dstate.Engine.Inbound.{handle_inbound}
use dstate.Engine.Keeps.{WellFormed, Keeps}
use dstate.Engine.Invariant.{step-Keeps, on_node_left-WellFormed}
use dstate.Actor.Messages.{
  node_joined, node_left, mutate_message, inbound_sync, inbound_wire, query_views, cluster_change,
  periodic_sync_message, flush_change_feed_message,
}
use dstate.Actor.Routing.{StateActor, DelayedTask, SenderCall}
use dstate.Actor.Handlers.{handle, handle_cluster_change, handle_flush, on_stop, routed?}
use dstate.Actor.Life.{
  Input, World, handles, registers, unregisters, wakes, stops, step, live, event_of, events_of,
  handled, onward, then_calls,
}

module _ {S V : Type 0} where
  -- The rest of a run from where the first part ended.
  abbrev continued : (Engine S V → Option (Engine S V)) → Option (Engine S V) → Option (Engine S V)
  continued rest none = none
  continued rest (some e) = rest e

  ran_once :
      (event : Event S V Unit Unit) (e : Engine S V) (k : Keeps e (Events.step event e))
      → run (event ∷ []) e ≡ some k.result.0
  unfolding run
  ran_once event e k = ap (Events.onward (run {DC = Unit} {VD = Unit} [])) k.returns

  -- A run of two lists of calls is the run of the second from what the first leaves.
  append_step :
      (xs ys : List (Event S V Unit Unit)) (o : Option (Engine S V × List EngineAction))
      → ((e : Engine S V) → run (xs ++ ys) e ≡ continued (run ys) (run xs e))
      → Events.onward (run (xs ++ ys)) o ≡ continued (run ys) (Events.onward (run xs) o)
  append_step xs ys none ih = refl
  append_step xs ys (some r) ih = ih r.0

  run-append :
      (xs ys : List (Event S V Unit Unit)) (e : Engine S V)
      → run (xs ++ ys) e ≡ continued (run ys) (run xs e)
  unfolding run
  run-append [] ys e = refl
  run-append (x ∷ xs) ys e = append_step xs ys (Events.step x e) (run-append xs ys)

module _ {S V P : Type 0} where
  -- The input returns, and its engine is the one after the events.
  pub record Follows (events : List (Event S V Unit Unit)) (e : Engine S V)
      (o : Option (World S V P × List (SenderCall P))) : Type 0 where
    pub result : World S V P × List (SenderCall P)
    pub returns : o ≡ some result
    pub ran : run events e ≡ some result.0.actor.engine
    pub well_formed : WellFormed result.0.actor.engine

  -- A handler that makes the call of the event and routes the actions.
  routed-Follows :
      (event : Event S V Unit Unit) (a : StateActor S V P) (tasks : List DelayedTask)
      → WellFormed a.engine
      → Follows (event ∷ []) a.engine (handled tasks (routed? a (Events.step event a.engine)))
  routed-Follows event a tasks h =
      let k = step-Keeps event a.engine h in
      record {
        result = _;
        returns = ap (λ o. handled tasks (routed? a o)) k.returns;
        ran = ran_once event a.engine k;
        well_formed = k.well_formed;
      }

  step-Follows :
      (input : Input S V P) (w : World S V P)
      → WellFormed w.actor.engine
      → Follows (event_of input) w.actor.engine (step input w)
  unfolding step handle Events.step handle_cluster_change handle_flush handle_inbound on_stop run
  step-Follows (handles clock (mutate_message f p urgency)) w h =
      routed-Follows (mutates clock f p urgency) w.actor w.sleeping h
  step-Follows (handles clock (inbound_sync msg)) w h =
      routed-Follows (receives clock (sync msg)) w.actor w.sleeping h
  step-Follows (handles clock (inbound_wire msg)) w h =
      routed-Follows (receives clock msg) w.actor w.sleeping h
  step-Follows (handles clock (query_views d)) w h = record {
    result = _;
    returns = refl;
    ran = refl;
    well_formed = h;
  }
  step-Follows (handles clock (cluster_change (node_joined n v))) w h =
      routed-Follows (joins clock n v) w.actor w.sleeping h
  step-Follows (handles clock (cluster_change (node_left n))) w h = record {
    result = _;
    returns = refl;
    ran = refl;
    well_formed = on_node_left-WellFormed n w.actor.engine h;
  }
  step-Follows (handles clock periodic_sync_message) w h = routed-Follows syncs w.actor w.sleeping h
  step-Follows (handles clock flush_change_feed_message) w h = record {
    result = _;
    returns = refl;
    ran = refl;
    well_formed = h;
  }
  step-Follows (registers n p) w h = record {
    result = _;
    returns = refl;
    ran = refl;
    well_formed = h;
  }
  step-Follows (unregisters n) w h = record {
    result = _;
    returns = refl;
    ran = refl;
    well_formed = h;
  }
  step-Follows (wakes n) w h = record { result = _; returns = refl; ran = refl; well_formed = h }
  step-Follows stops w h = record { result = _; returns = refl; ran = refl; well_formed = h }

  -- From a well-formed engine, a life of the actor returns for every list of inputs: no handler
  -- panics; the engine that it leaves is the one that the engine's own calls leave, one for each
  -- message that changes it and none for a query, a registration, a wake-up or the stop; and it is
  -- well-formed.
  pub live-run :
      (inputs : List (Input S V P)) (w : World S V P)
      → WellFormed w.actor.engine
      → (w' : World S V P) × (calls : List (SenderCall P)) × (live inputs w ≡ some (w', calls))
        × (run (events_of inputs) w.actor.engine ≡ some w'.actor.engine)
        × WellFormed w'.actor.engine
  unfolding live run
  live-run [] w h = (w, [], refl, refl, h)
  live-run (input ∷ inputs) w h =
      let f = step-Follows input w h in
      let (w', calls, lived, ran, valid) = live-run inputs f.result.0 f.well_formed in
      (
        w',
        f.result.1 ++ calls,
        ap (onward (live inputs)) f.returns ∙ ap (then_calls f.result.1) lived,
        run-append (event_of input) (events_of inputs) w.actor.engine
            ∙ ap (continued (run (events_of inputs))) f.ran
            ∙ ran,
        valid,
      )

-- ===== src/Engine/Keeps.antt =====
-- What it means that a call returns and keeps the views well-formed, and the calls that send.
use dstate.Base.{◌≡◌, refl, true, Option, none, some, List, is_some}
use dstate.Types.Envelope.{NodeId, StateViewObject}
use dstate.Types.Message.{Bytes}
use dstate.Shard.State.{get_view}
use dstate.SyncLogic.{SyncAction, broadcast_snapshot}
use dstate.Engine.State.{Engine, EngineAction, own_view_value, value_of}
use dstate.Engine.Outbound.{
  sync_action_to_engine_actions_snapshot, sync_action_to_engine_actions_delta, broadcast_own,
}
use dstate.Engine.Inbound.{reply_own}
use dstate.Engine.Valid.{IsValid}

is_some-value_of :
    {V : Type 0} (o : Option (StateViewObject V)) → is_some o ≡ true → is_some (value_of o) ≡ true
is_some-value_of none h = h
is_some-value_of (some vo) h = refl

module _ {S V : Type 0} where
  -- The views of the engine are well-formed.
  abbrev pub WellFormed : Engine S V → Type 0
  WellFormed e = IsValid e.lifecycle e.shard

  -- A call returns, and the engine that it leaves is well-formed and is still the same node.
  pub record Keeps (e : Engine S V) (o : Option (Engine S V × List EngineAction)) : Type 0 where
    pub result : Engine S V × List EngineAction
    pub returns : o ≡ some result
    pub well_formed : WellFormed result.0
    pub same_node : result.0.shard.node_id ≡ e.shard.node_id

  -- `expect("own view should always exist")` does not panic.
  pub own_view_value-some : (e : Engine S V) → WellFormed e → is_some (own_view_value e) ≡ true
  unfolding own_view_value get_view
  own_view_value-some e h = is_some-value_of _ h.own

  pub broadcast_own-Keeps :
      (o : Option V) (e : Engine S V)
      → is_some o ≡ true
      → WellFormed e
      → Keeps e (broadcast_own o e)
  broadcast_own-Keeps none e p h = cc
  broadcast_own-Keeps (some w) e p h = record {
    result = _;
    returns = refl;
    well_formed = h;
    same_node = refl;
  }

  pub reply_own-Keeps :
      (n : NodeId) (o : Option V) (e : Engine S V)
      → is_some o ≡ true
      → WellFormed e
      → Keeps e (reply_own n o e)
  reply_own-Keeps n none e p h = cc
  reply_own-Keeps n (some w) e p h = record {
    result = _;
    returns = refl;
    well_formed = h;
    same_node = refl;
  }

  -- The actions for a mutation change neither the shard nor the departed set.
  pub sent_snapshot-WellFormed :
      (a : SyncAction) (view : V) (e : Engine S V)
      → WellFormed e
      → WellFormed (sync_action_to_engine_actions_snapshot a view e).0
  unfolding sync_action_to_engine_actions_snapshot
  sent_snapshot-WellFormed broadcast_snapshot view e h = h
  sent_snapshot-WellFormed _ view e h = h

  pub sent_snapshot-node :
      (a : SyncAction) (view : V) (e : Engine S V)
      → (sync_action_to_engine_actions_snapshot a view e).0.shard ≡ e.shard
  unfolding sync_action_to_engine_actions_snapshot
  sent_snapshot-node broadcast_snapshot view e = refl
  sent_snapshot-node _ view e = refl

  pub sent_delta-WellFormed :
      {VD : Type 0} (a : SyncAction) (view : V) (d : VD) (f : VD → Bytes) (e : Engine S V)
      → WellFormed e
      → WellFormed (sync_action_to_engine_actions_delta a view d f e).0
  unfolding sync_action_to_engine_actions_delta
  sent_delta-WellFormed broadcast_snapshot view d f e h = h
  sent_delta-WellFormed _ view d f e h = h

  pub sent_delta-node :
      {VD : Type 0} (a : SyncAction) (view : V) (d : VD) (f : VD → Bytes) (e : Engine S V)
      → (sync_action_to_engine_actions_delta a view d f e).0.shard ≡ e.shard
  unfolding sync_action_to_engine_actions_delta
  sent_delta-node broadcast_snapshot view d f e = refl
  sent_delta-node _ view d f e = refl

-- ===== src/Laws/Announce.antt =====
-- What a mutation leaves in the engine and what it sends, beside a table by urgency and push mode.
use dstate.Base.{
  ◌≡◌, refl, sym, subst, ◌∙◌, Bool, true, false, Option, none, some, List, [], ◌∷◌, arith, eq_refl,
  is_some, if◌then◌else◌, inc_u64,
}
use dstate.Types.Config.{PushMode, SyncUrgency}
use dstate.Types.Envelope.{Clock, StateViewObject}
use dstate.Types.Generation
use dstate.Types.Generation.{Generation}
use dstate.Types.Message.{Bytes, SyncMessage, full_snapshot, delta_update}
use dstate.ViewMap
use dstate.ViewMap.{contains}
use dstate.ViewMap.Laws.{get-update}
use dstate.Shard.State.{ShardCore, get_view}
use dstate.Shard.Mutation.{
  own_entry, advanced, apply_mutation, apply_mutation_with_delta, update_own_view,
}
use dstate.SyncLogic.{resolve_action}
use dstate.ChangeFeed.{notify_change}
use dstate.Diagnostics.{record_mutation}
use dstate.Engine.State.{Engine, EngineAction, broadcast_sync, schedule_delayed}
use dstate.Engine.Outbound.{
  sync_action_to_engine_actions_snapshot, sync_action_to_engine_actions_delta, mutate,
  mutate_with_delta,
}
use dstate.Engine.Keeps.{WellFormed}

-- The generation after a mutation.
abbrev pub next_generation : Generation → Generation
next_generation g = Generation.new g.incarnation (inc_u64 g.age)

-- Of the messages `now` and `later`, the actions that a mutation asks for.
abbrev pub table : SyncUrgency → Option PushMode → SyncMessage → SyncMessage → List EngineAction
table SyncUrgency.immediate mode now later = broadcast_sync now ∷ []
table (SyncUrgency.delayed d) mode now later = schedule_delayed d later ∷ []
table SyncUrgency.suppress mode now later = []
table SyncUrgency.default (some PushMode.active_push) now later = broadcast_sync now ∷ []
table SyncUrgency.default (some PushMode.active_feed_lazy_pull) now later = []
table SyncUrgency.default none now later = []

-- Whether the mutation goes into the change feed.
abbrev pub feeds : SyncUrgency → Option PushMode → Bool
feeds SyncUrgency.default (some PushMode.active_feed_lazy_pull) = true
feeds _ _ = false

module _ {S V : Type 0} where
  -- The snapshot, and the delta, of a view at generation `g`.
  abbrev pub snapshot_at : Engine S V → Generation → Bytes → SyncMessage
  snapshot_at e g bytes = full_snapshot e.state_name e.shard.node_id g e.wire_version bytes

  abbrev pub delta_at : Engine S V → Generation → Bytes → SyncMessage
  delta_at e g bytes = delta_update e.state_name e.shard.node_id g e.wire_version bytes

  -- The shard is at generation `g` with this state and this own view.
  abbrev pub IsAt : ShardCore S V → Generation → S → V → Type 0
  IsAt s g state view =
      (s.state.generation ≡ g)
      × (s.state.value ≡ state)
      × (vo : StateViewObject V) × (get_view s.node_id s ≡ some vo)
      × (vo.generation ≡ g)
      × (vo.value ≡ view)
      × (vo.pending_remote_generation ≡ none)

  own_view_written :
      (clock : Clock) (view : V) (s : ShardCore S V)
      → is_some (get_view s.node_id s) ≡ true
      → get_view s.node_id (update_own_view clock view s)
        ≡ some (own_entry clock view s.node_id s.state)
  unfolding get_view update_own_view contains dstate.HashMap.contains_key ViewMap.get
  own_view_written clock view s own =
      get-update s.node_id s.node_id _ s.views ∙ rw (eq_refl s.node_id, own)

  is_at :
      (clock : Clock) (view : V) (s : ShardCore S V)
      → is_some (get_view s.node_id s) ≡ true
      → IsAt (update_own_view clock view s) s.state.generation s.state.value view
  unfolding update_own_view
  is_at clock view s own = (refl, refl, _, own_view_written clock view s own, refl, refl, refl)

  snapshot_sends :
      (urgency : SyncUrgency) (view : V) (e : Engine S V)
      → let sent =
          sync_action_to_engine_actions_snapshot (resolve_action urgency e.sync_logic) view e in
        let message = snapshot_at e e.shard.state.generation (e.serialize_view view) in
        (sent.1 ≡ table urgency e.sync_logic.strategy.push_mode message message)
        × (sent.0.shard ≡ e.shard)
        × (sent.0.change_feed ≡ (
            if feeds urgency e.sync_logic.strategy.push_mode
            then notify_change e.state_name e.shard.node_id e.shard.state.generation e.change_feed
            else e.change_feed))
  unfolding sync_action_to_engine_actions_snapshot resolve_action
  snapshot_sends urgency view e = ground arith

  delta_sends :
      {VD : Type 0} (urgency : SyncUrgency) (view : V) (d : VD) (f : VD → Bytes) (e : Engine S V)
      → let sent =
          sync_action_to_engine_actions_delta (resolve_action urgency e.sync_logic) view d f e in
        let g = e.shard.state.generation in
        let delta = delta_at e g (f d) in
        (sent.1
          ≡ table urgency e.sync_logic.strategy.push_mode
              (if e.sync_logic.supports_delta
                then delta
                else snapshot_at e g (e.serialize_view view))
              delta)
        × (sent.0.shard ≡ e.shard)
        × (sent.0.change_feed ≡ (
            if feeds urgency e.sync_logic.strategy.push_mode
            then notify_change e.state_name e.shard.node_id g e.change_feed
            else e.change_feed))
  unfolding sync_action_to_engine_actions_delta resolve_action
  delta_sends urgency view d f e = ground arith

  -- A mutation of a well-formed engine applies the function once and goes one generation further, in the state, in the own
  -- view and in what it returns; it sends a snapshot of exactly that generation and view in the way
  -- that the table gives for its urgency; and it enters the generation in the change feed where the
  -- table leaves the sending to the feed.
  pub mutate_announces :
      (clock : Clock) (f : S → S) (p : S → V) (urgency : SyncUrgency) (e : Engine S V)
      → WellFormed e
      → let r = mutate clock f p urgency e in
        let g = next_generation e.shard.state.generation in
        let state = f e.shard.state.value in
        let message = snapshot_at e g (e.serialize_view (p state)) in
        IsAt r.0.shard g state (p state)
        × (r.1.generation ≡ g)
        × (r.1.view ≡ p state)
        × (r.1.actions ≡ table urgency e.sync_logic.strategy.push_mode message message)
        × (r.0.change_feed ≡ (
            if feeds urgency e.sync_logic.strategy.push_mode
            then notify_change e.state_name e.shard.node_id g e.change_feed
            else e.change_feed))
  unfolding mutate apply_mutation get_view
  mutate_announces clock f p urgency e h =
      let state = advanced clock (f e.shard.state.value) e.shard.state in
      let s = record (e.shard) { state = state } in
      let written = update_own_view clock (p state.value) s in
      let sends =
        snapshot_sends urgency (p state.value)
          (record e { shard = written; diagnostics = record_mutation e.diagnostics }) in
      (
        subst (λ (x : ShardCore S V). IsAt x state.generation state.value (p state.value))
            (sym sends.1) (is_at clock (p state.value) s h.own),
        refl,
        refl,
        unfold update_own_view in sends.0,
        unfold update_own_view in sends.2,
      )

  -- A mutation with a delta of a well-formed engine applies the function once and goes one generation
  -- further, in the state, in the own view and in what it returns. What it sends at once, as the table
  -- says, is the delta of that generation where the engine supports deltas and else the snapshot; what
  -- it schedules is the delta in both cases; and the change feed takes what the table leaves to it.
  pub mutate_with_delta_announces :
      {DC VD : Type 0} (clock : Clock) (f : S → S × DC) (p : S → V) (q : DC → VD)
      (urgency : SyncUrgency) (b : VD → Bytes) (e : Engine S V)
      → WellFormed e
      → let r = mutate_with_delta clock f p q urgency b e in
        let g = next_generation e.shard.state.generation in
        let state = (f e.shard.state.value).0 in
        let delta = delta_at e g (b (q (f e.shard.state.value).1)) in
        IsAt r.0.shard g state (p state)
        × (r.1.generation ≡ g)
        × (r.1.view ≡ p state)
        × (r.1.view_delta ≡ q (f e.shard.state.value).1)
        × (r.1.actions
            ≡ table urgency e.sync_logic.strategy.push_mode
                (if e.sync_logic.supports_delta
                  then delta
                  else snapshot_at e g (e.serialize_view (p state)))
                delta)
        × (r.0.change_feed ≡ (
            if feeds urgency e.sync_logic.strategy.push_mode
            then notify_change e.state_name e.shard.node_id g e.change_feed
            else e.change_feed))
  unfolding mutate_with_delta apply_mutation_with_delta get_view
  mutate_with_delta_announces clock f p q urgency b e h =
      let state = advanced clock (f e.shard.state.value).0 e.shard.state in
      let s = record (e.shard) { state = state } in
      let written = update_own_view clock (p state.value) s in
      let sends =
        delta_sends urgency (p state.value) (q (f e.shard.state.value).1) b
          (record e { shard = written; diagnostics = record_mutation e.diagnostics }) in
      (
        subst (λ (x : ShardCore S V). IsAt x state.generation state.value (p state.value))
            (sym sends.1) (is_at clock (p state.value) s h.own),
        refl,
        refl,
        refl,
        unfold update_own_view in sends.0,
        unfold update_own_view in sends.2,
      )

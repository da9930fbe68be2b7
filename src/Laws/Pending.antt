-- ===== src/Laws/Pending.antt =====
-- What a peer has announced and this node has not yet received.
use dstate.Base.{ℕ, ◌≡◌, refl, true, false, Option, none, some, arith, ◌∙◌, eq_refl, if◌then◌else◌}
use dstate.Types.Envelope.{NodeId, Clock, StateViewObject}
use dstate.Types.Generation
use dstate.Types.Generation.{Generation, gt, lt, gt_trans, gt→not_le}
use dstate.ViewMap.Laws.{get-update_if, kept}
use dstate.Shard.State.{ShardCore, InboundSnapshot, get_view}
use dstate.Shard.Inbound.{
  should_accept, snapshot_update, snapshot_entry, accept_inbound_snapshot, stale_update, mark_stale,
}

module _ {S V : Type 0} where
  -- What a node holds of the source of a snapshot afterwards.
  pub get_view-accept :
      (clock : Clock) (snap : InboundSnapshot V) (s : ShardCore S V)
      (old : Option (StateViewObject V))
      → get_view snap.source s ≡ old
      → get_view snap.source (accept_inbound_snapshot clock snap s).0
        ≡ kept old (snapshot_update clock snap old)
  unfolding get_view accept_inbound_snapshot
  get_view-accept clock snap s old e =
      get-update_if snap.source snap.source (snapshot_update clock snap) s.views
      ∙ rw (eq_refl snap.source, e)

  pub get_view-mark_stale :
      (source : NodeId) (incarnation age : ℕ) (s : ShardCore S V) (old : Option (StateViewObject V))
      → get_view source s ≡ old
      → get_view source (mark_stale source incarnation age s)
        ≡ kept old (stale_update (Generation.new incarnation age) old)
  unfolding get_view mark_stale
  get_view-mark_stale source incarnation age s old e =
      get-update_if source source (stale_update (Generation.new incarnation age)) s.views
      ∙ rw (eq_refl source, e)

  get_view_marked :
      (source : NodeId) (g : Generation) (s : ShardCore S V) (old : StateViewObject V)
      → get_view source s ≡ some old
      → gt g old.generation ≡ true
      → get_view source (mark_stale source g.incarnation g.age s)
        ≡ some (record old { pending_remote_generation = some g })
  unfolding stale_update
  get_view_marked source g s old e newer =
      get_view-mark_stale source g.incarnation g.age s _ e ∙ rw (gt→not_le g old.generation newer)

  -- A feed announces a generation newer than the view of its source, and a snapshot newer than that
  -- view is accepted afterwards: the announcement stays pending exactly if the snapshot is older than
  -- what was announced.
  pub pending_after_snapshot :
      (clock : Clock) (snap : InboundSnapshot V) (g : Generation) (s : ShardCore S V)
      (old : StateViewObject V)
      → get_view snap.source s ≡ some old
      → gt g old.generation ≡ true
      → should_accept snap.generation old.generation ≡ true
      → get_view snap.source
          (accept_inbound_snapshot clock snap (mark_stale snap.source g.incarnation g.age s)).0
        ≡ some (record (snapshot_entry clock snap none) {
          pending_remote_generation = (if lt snap.generation g then some g else none);
        })
  pending_after_snapshot clock snap g s old e newer accepted =
      get_view-accept clock snap _ _ (get_view_marked snap.source g s old e newer)
      ∙ unfold snapshot_update in rw accepted refl

  -- A feed that arrives late undoes a newer one: `first` is newer than the view and `second` newer
  -- than `first`, and the feed of `second` comes before that of `first`. A snapshot at `first` then
  -- leaves nothing pending, so the view counts as caught up although `second` was announced.
  pub late_feed_forgets :
      (clock : Clock) (snap : InboundSnapshot V) (first second : Generation) (s : ShardCore S V)
      (old : StateViewObject V)
      → get_view snap.source s ≡ some old
      → gt first old.generation ≡ true
      → gt second first ≡ true
      → snap.generation ≡ first
      → get_view snap.source
          (accept_inbound_snapshot clock snap (
            mark_stale snap.source first.incarnation first.age
              (mark_stale snap.source second.incarnation second.age s))).0
        ≡ some (snapshot_entry clock snap none)
  unfolding should_accept gt
  late_feed_forgets clock snap first second s old e newer newest at_first =
      pending_after_snapshot clock snap first _ _
        (get_view_marked snap.source second s old e
          (gt_trans second first old.generation newest newer))
        newer (rw at_first newer)
      ∙ rw (not_older snap.generation first at_first)
    where
      not_older : (a b : Generation) → a ≡ b → lt a b ≡ false
      not_older a b same = unfold lt in ground arith

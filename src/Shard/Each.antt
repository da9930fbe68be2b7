-- ===== src/Shard/Each.antt =====
-- A property of every view of a shard, and how each operation of the shard keeps it.
use dstate.Base.{subst, ℕ, ◌≡◌, refl, true, false, Option, none, some, inl, inr, ◌==◌, Bool-cases}
use dstate.Types.Envelope.{NodeId, Clock, StateViewObject}
use dstate.Types.Generation
use dstate.Types.Generation.{Generation, le}
use dstate.ViewMap
use dstate.ViewMap.{ViewMap}
use dstate.ViewMap.Each.{
  some_injective, Each, Each-update_if, Each-update, Each-insert_node, Each-remove_node,
}
use dstate.Shard.State.{
  ShardCore, InboundSnapshot, DeltaAcceptResult, applied, gap_detected, unknown_peer, new,
}
use dstate.Shard.Mutation.{own_entry, update_own_view}
use dstate.Shard.Inbound.{
  should_accept, snapshot_entry, snapshot_update, accept_inbound_snapshot, delta_entry,
  delta_verdict, accept_inbound_delta, on_verdict, on_entry, stale_update, mark_stale,
}
use dstate.Shard.Membership.{placeholder, on_node_joined, on_node_left}

-- What the closures of the two conditional writes returned.
module _ {V : Type 0} where
  snapshot_update-none :
      (clock : Clock) (snap : InboundSnapshot V) (v : StateViewObject V)
      → snapshot_update clock snap none ≡ some v
      → snapshot_entry clock snap none ≡ v
  unfolding snapshot_update
  snapshot_update-none clock snap v e = cc

  pub snapshot_update-some :
      (clock : Clock) (snap : InboundSnapshot V) (old v : StateViewObject V)
      → snapshot_update clock snap (some old) ≡ some v
      → (should_accept snap.generation old.generation ≡ true)
        × (snapshot_entry clock snap old.pending_remote_generation ≡ v)
  unfolding snapshot_update
  snapshot_update-some clock snap old v e =
      elim (Bool-cases (should_accept snap.generation old.generation)) [
        | inl newer ↦ (newer, some_injective (rw newer at e))
        | inr older ↦ cc (rw older at e)
      ]

  stale_update-none : (g : Generation) (v : StateViewObject V) → stale_update g none ≡ some v → ⊥
  unfolding stale_update
  stale_update-none g v e = cc

  stale_update-some :
      (g : Generation) (old v : StateViewObject V)
      → stale_update g (some old) ≡ some v
      → (le g old.generation ≡ false) × (record old { pending_remote_generation = some g } ≡ v)
  unfolding stale_update
  stale_update-some g old v e = elim (Bool-cases (le g old.generation)) [
    | inl known ↦ cc (rw known at e)
    | inr newer ↦ (newer, some_injective (rw newer at e))
  ]

module _ {S V : Type 0} where
  -- A property of the shard that a delta leaves: of the shard itself and of the updated one.
  pub accept_inbound_delta-cases {κ} :
      (Q : ShardCore S V → Type κ) (clock : Clock) (source : NodeId) (g : Generation) (w : ℕ)
      (f : V → V) (s : ShardCore S V)
      → Q s
      → ((existing : StateViewObject V)
          → ViewMap.get source s.views ≡ some existing
          → delta_verdict g existing.generation ≡ applied
          → Q (record s {
            views =
                (ViewMap.update source
                  (delta_entry clock source g w (f existing.value) existing)
                  s.views).0;
          }))
      → Q (accept_inbound_delta clock source g w f s).0
  unfolding accept_inbound_delta
  accept_inbound_delta-cases Q clock source g w f s same new =
      at_entry (ViewMap.get source s.views) new
    where
      at_verdict :
          (existing : StateViewObject V) (r : DeltaAcceptResult)
          → (r ≡ applied
              → Q (record s {
                views =
                    (ViewMap.update source
                      (delta_entry clock source g w (f existing.value) existing)
                      s.views).0;
              }))
          → Q (on_verdict clock source g w f existing r s).0
      at_verdict existing applied q = q refl
      at_verdict existing DeltaAcceptResult.discarded q = same
      at_verdict existing (gap_detected l i) q = same
      at_verdict existing unknown_peer q = same

      at_entry :
          (o : Option (StateViewObject V))
          → ((existing : StateViewObject V)
              → o ≡ some existing
              → delta_verdict g existing.generation ≡ applied
              → Q (record s {
                views =
                    (ViewMap.update source
                      (delta_entry clock source g w (f existing.value) existing)
                      s.views).0;
              }))
          → Q (on_entry clock source g w f o s).0
      at_entry none q = same
      at_entry (some existing) q =
          at_verdict existing (delta_verdict g existing.generation) (q existing refl)

module _ {ℓ} {S V : Type 0} {P : NodeId → StateViewObject V → Type ℓ} where
  pub update_own_view-Each :
      (clock : Clock) (view : V) (s : ShardCore S V)
      → Each P s.views
      → P s.node_id (own_entry clock view s.node_id s.state)
      → Each P (update_own_view clock view s).views
  unfolding update_own_view
  update_own_view-Each clock view s each p = Each-update s.node_id _ s.views each p

  pub accept_inbound_snapshot-Each :
      (clock : Clock) (snap : InboundSnapshot V) (s : ShardCore S V)
      → Each P s.views
      → (ViewMap.get snap.source s.views ≡ none → P snap.source (snapshot_entry clock snap none))
      → ((old : StateViewObject V)
          → ViewMap.get snap.source s.views ≡ some old
          → should_accept snap.generation old.generation ≡ true
          → P snap.source (snapshot_entry clock snap old.pending_remote_generation))
      → Each P (accept_inbound_snapshot clock snap s).0.views
  unfolding accept_inbound_snapshot
  accept_inbound_snapshot-Each clock snap s each first next =
      Each-update_if snap.source (snapshot_update clock snap) s.views each
        (written (ViewMap.get snap.source s.views) first next)
    where
      written :
          (o : Option (StateViewObject V))
          → (o ≡ none → P snap.source (snapshot_entry clock snap none))
          → ((old : StateViewObject V)
              → o ≡ some old
              → should_accept snap.generation old.generation ≡ true
              → P snap.source (snapshot_entry clock snap old.pending_remote_generation))
          → (v : StateViewObject V) → snapshot_update clock snap o ≡ some v
          → P snap.source v
      written none f n v e = subst (P snap.source) (snapshot_update-none clock snap v e) (f refl)
      written (some old) f n v e =
          let (newer, same) = snapshot_update-some clock snap old v e in
          subst (P snap.source) same (n old refl newer)

  pub accept_inbound_delta-Each :
      (clock : Clock) (source : NodeId) (g : Generation) (w : ℕ) (f : V → V) (s : ShardCore S V)
      → Each P s.views
      → ((existing : StateViewObject V)
          → ViewMap.get source s.views ≡ some existing
          → delta_verdict g existing.generation ≡ applied
          → P source (delta_entry clock source g w (f existing.value) existing))
      → Each P (accept_inbound_delta clock source g w f s).0.views
  accept_inbound_delta-Each clock source g w f s each p =
      accept_inbound_delta-cases (λ t. Each P t.views) clock source g w f s each
        (λ existing e r. Each-update source _ s.views each (p existing e r))

  pub mark_stale-Each :
      (source : NodeId) (incarnation age : ℕ) (s : ShardCore S V)
      → Each P s.views
      → ((old : StateViewObject V)
          → ViewMap.get source s.views ≡ some old
          → le (Generation.new incarnation age) old.generation ≡ false
          → P source
              (record old { pending_remote_generation = some (Generation.new incarnation age) }))
      → Each P (mark_stale source incarnation age s).views
  unfolding mark_stale
  mark_stale-Each source incarnation age s each p =
      Each-update_if source (stale_update (Generation.new incarnation age)) s.views each
        (written (ViewMap.get source s.views) p)
    where
      written :
          (o : Option (StateViewObject V))
          → ((old : StateViewObject V)
              → o ≡ some old
              → le (Generation.new incarnation age) old.generation ≡ false
              → P source (record old {
                pending_remote_generation = some (Generation.new incarnation age);
              }))
          → (v : StateViewObject V) → stale_update (Generation.new incarnation age) o ≡ some v
          → P source v
      written none n v e = absurd (stale_update-none (Generation.new incarnation age) v e)
      written (some old) n v e =
          let (newer, same) = stale_update-some (Generation.new incarnation age) old v e in
          subst (P source) same (n old refl newer)

  pub on_node_joined-Each :
      (clock : Clock) (node_id : NodeId) (default_view : V) (s : ShardCore S V)
      → Each P s.views
      → P node_id (placeholder clock node_id default_view)
      → Each P (on_node_joined clock node_id default_view s).views
  unfolding on_node_joined
  on_node_joined-Each clock node_id default_view s each p =
      elim (Bool-cases (node_id == s.node_id)) [
        | inl self ↦ rw self each
        | inr peer ↦ rw peer (Each-insert_node node_id _ s.views each p)
      ]

  pub on_node_left-Each :
      (node_id : NodeId) (s : ShardCore S V)
      → Each P s.views
      → Each P (on_node_left node_id s).views
  unfolding on_node_left
  on_node_left-Each node_id s each = elim (Bool-cases (node_id == s.node_id)) [
    | inl self ↦ rw self each
    | inr peer ↦ rw peer (Each-remove_node node_id s.views each)
  ]

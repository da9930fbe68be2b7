-- ===== src/Replica/Consistency.antt =====
-- What it means that a view of a peer is one that the peer had. `Had j g v` stands for the history of the cluster: node
-- `j` had the view `v` at generation `g`. The network may lose, repeat and reorder messages.
use dstate.Base.{
  ℕ, String, ◌<◌, ◌≡◌, sym, ap, ◌∙◌, subst, ◌⊎◌, some, inl, inr, List, [], ◌∷◌, inc_u64, arith,
}
use dstate.Types.Envelope.{NodeId, Clock, StateViewObject}
use dstate.Types.Errors.{Result, ok, err, DeserializeError, unknown_version, malformed}
use dstate.Types.Generation
use dstate.Types.Generation.{Generation}
use dstate.Types.Message.{Bytes, SyncMessage, full_snapshot, delta_update, request_snapshot}
use dstate.ViewMap
use dstate.ViewMap.Each.{some_injective, Each}
use dstate.Shard.State.{ShardCore, get_view, applied}
use dstate.Shard.Inbound.{delta_verdict}
use dstate.Shard.Each.{
  accept_inbound_snapshot-Each, accept_inbound_delta-Each, mark_stale-Each, on_node_left-Each,
}
use dstate.Diagnostics.{DiagnosticsLogic}
use dstate.Shard.Frame.{
  on_node_left-Frame, accept_inbound_snapshot-Frame, accept_inbound_delta-Frame, mark_stale-Frame,
}
use dstate.Versioning.{accepted, inbound_result, on_inbound, VersioningLogic}
use dstate.Engine.State.{Engine, InboundDeltaApplierFn}
use dstate.Engine.Snapshot.{handle_full_snapshot}
use dstate.Engine.Delta.{handle_delta_update}
use dstate.Engine.Inbound.{feed_entry, feed_entries}
use dstate.Engine.Shards.{handle_full_snapshot-shard, handle_delta_update-shard, feed_entry-shard}

-- The generation that a delta for `g` starts from.
abbrev pub Follows : Generation → Generation → Type 0
Follows g old = (g.incarnation ≡ old.incarnation) × (g.age ≡ inc_u64 old.age)

module _ {V : Type 0} (Had : NodeId → Generation → V → Type 0) where
  -- The entry of a peer is the placeholder of a join, or a view that the peer had at that generation.
  abbrev pub IsTrue : NodeId → NodeId → StateViewObject V → Type 0
  IsTrue self j vo =
      (j ≡ self) ⊎ (vo.generation ≡ Generation.zero_generation) ⊎ Had j vo.generation vo.value

  -- A message that a node sent, as the receiver reads it: a snapshot holds a view that its source
  -- had, and a delta takes the view that its source had before to the one it had then. A feed and a
  -- request say nothing of views.
  abbrev pub Genuine : {S : Type 0} → Engine S V → SyncMessage → Type 0
  Genuine e (full_snapshot name source g w bytes) =
      (v : V) → e.deserialize_view bytes w ≡ ok v → Had source g v
  Genuine e (delta_update name source g w bytes) =
      (0 < g.incarnation)
      × ((applier : InboundDeltaApplierFn V) (old : Generation) (v v' : V)
          → e.inbound_delta_applier ≡ some applier
          → Follows g old
          → Had source old v
          → applier bytes w v ≡ ok v'
          → Had source g v')
  Genuine e (request_snapshot name requester) = Unit

read_view :
    {V : Type 0} (l : VersioningLogic) (r : Result DeserializeError V) (v : V)
    → inbound_result l r ≡ accepted v
    → r ≡ ok v
read_view l (ok w) v e = cc
read_view l (err (unknown_version n)) v e = cc
read_view l (err (malformed msg)) v e = cc

read_on_inbound :
    {S V : Type 0} (bytes : Bytes) (w : ℕ) (r : Engine S V) (v : V)
    → on_inbound bytes w r.deserialize_view r.versioning ≡ accepted v
    → r.deserialize_view bytes w ≡ ok v
unfolding on_inbound
read_on_inbound bytes w r v e = read_view r.versioning (r.deserialize_view bytes w) v e

delta_verdict-Follows : (g old : Generation) → delta_verdict g old ≡ applied → Follows g old
unfolding delta_verdict
delta_verdict-Follows g old e = (ground arith, ground arith)

module _ {S V : Type 0} (Had : NodeId → Generation → V → Type 0) where
  -- The views of `r` are true, and `r` is `e` with the same id and the same codec.
  pub record Tells (e r : Engine S V) : Type 0 where
    pub views : Each (IsTrue Had r.shard.node_id) r.shard.views
    pub reads : r.deserialize_view ≡ e.deserialize_view
    pub applies : r.inbound_delta_applier ≡ e.inbound_delta_applier

  blind :
      (e : Engine S V) (d : DiagnosticsLogic) (r : Engine S V)
      → Tells e r
      → Tells e (record r { diagnostics = d })
  blind e d r t = record { views = t.views; reads = t.reads; applies = t.applies }

  -- A shard with the same id and true views.
  pub with_shard :
      (e r : Engine S V) (s : ShardCore S V)
      → Tells e r
      → s.node_id ≡ r.shard.node_id
      → Each (IsTrue Had r.shard.node_id) s.views
      → Tells e (record r { shard = s })
  with_shard e r s t node views = record {
    views = subst (λ n. Each (IsTrue Had n) s.views) (sym node) views;
    reads = t.reads;
    applies = t.applies;
  }

  -- The view that a delta makes of the current one is true.
  delta-IsTrue :
      (source : NodeId) (g : Generation) (w : ℕ) (bytes : Bytes) (e r : Engine S V)
      (applier : InboundDeltaApplierFn V) (current old : StateViewObject V) (v : V)
      → Genuine Had e (delta_update e.state_name source g w bytes)
      → Tells e r
      → r.inbound_delta_applier ≡ some applier
      → get_view source r.shard ≡ some current
      → applier bytes w current.value ≡ ok v
      → ViewMap.get source r.shard.views ≡ some old
      → delta_verdict g old.generation ≡ applied
      → (source ≡ r.shard.node_id) ⊎ (g ≡ Generation.zero_generation) ⊎ Had source g v
  unfolding get_view
  delta-IsTrue source g w bytes e r applier current old v (alive, true_delta) t a c made at next =
      by_old (t.views.at source old at)
    where
      follows : Follows g old.generation
      follows = delta_verdict-Follows g old.generation next

      same : current ≡ old
      same = some_injective (sym c ∙ at)

      by_old :
          IsTrue Had r.shard.node_id source old
          → (source ≡ r.shard.node_id) ⊎ (g ≡ Generation.zero_generation) ⊎ Had source g v
      by_old (inl self) = inl self
      by_old (inr (inl placeholder)) =
          absurd (omega (arith, follows.0, ap (λ (x : Generation). x.incarnation) placeholder))
      by_old (inr (inr had)) = inr (
          inr (
            true_delta applier old.generation old.value v (sym t.applies ∙ a) follows had
              (ap (λ (x : StateViewObject V). applier bytes w x.value) (sym same) ∙ made)))

  pub full_snapshot-Tells :
      (clock : Clock) (name : String) (source : NodeId) (g : Generation) (w : ℕ) (bytes : Bytes)
      (e r : Engine S V)
      → Genuine Had e (full_snapshot name source g w bytes)
      → Tells e r
      → Tells e (handle_full_snapshot clock name source g w bytes r).0
  full_snapshot-Tells clock name source g w bytes e r true_view t =
      handle_full_snapshot-shard (Tells e) (blind e) clock name source g w bytes r t
        (with_shard e r _ t (on_node_left-Frame source r.shard).0
          (on_node_left-Each source r.shard t.views))
        (λ v present read.
          let had : Had source g v = true_view v (
            ap (λ (f : Bytes → ℕ → Result DeserializeError V). f bytes w) (sym t.reads)
            ∙ read_on_inbound bytes w r v read) in
          with_shard e r _ t (accept_inbound_snapshot-Frame clock _ r.shard).0 (
            accept_inbound_snapshot-Each clock _ r.shard t.views (λ _. inr (inr had))
              (λ old _ newer. inr (inr had))))

  pub delta_update-Tells :
      (clock : Clock) (name : String) (source : NodeId) (g : Generation) (w : ℕ) (bytes : Bytes)
      (e r : Engine S V)
      → Genuine Had e (delta_update name source g w bytes)
      → Tells e r
      → Tells e (handle_delta_update clock name source g w bytes r).0
  delta_update-Tells clock name source g w bytes e r genuine t =
      handle_delta_update-shard (Tells e) (blind e) clock name source g w bytes r t
        (with_shard e r _ t (on_node_left-Frame source r.shard).0
          (on_node_left-Each source r.shard t.views))
        (λ applier current v a c made.
          with_shard e r _ t (accept_inbound_delta-Frame clock source g w (λ _. v) r.shard).0 (
            accept_inbound_delta-Each clock source g w (λ _. v) r.shard t.views
              (λ old at next.
                delta-IsTrue source g w bytes e r applier current old v genuine t a c made at
                  next)))

  pub feed_entries-Tells :
      (entries : List (String × NodeId × Generation)) (e r : Engine S V)
      → Tells e r
      → Tells e (feed_entries entries r)
  unfolding feed_entries
  feed_entries-Tells [] e r t = t
  feed_entries-Tells (entry ∷ rest) e r t = feed_entries-Tells rest e (feed_entry entry r) (
      feed_entry-shard (Tells e) (blind e) entry r t (
        with_shard e r _ t (mark_stale-Frame entry.1 entry.2.incarnation entry.2.age r.shard).0 (
          mark_stale-Each entry.1 entry.2.incarnation entry.2.age r.shard t.views
            (λ old at newer. t.views.at entry.1 old at))))

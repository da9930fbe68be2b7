-- ===== src/Laws/Convergence.antt =====
-- Snapshots of one source in any order and with repetitions, in dstate/src/core/shard_core.rs.
use dstate.Base.{
  ◌≡◌, refl, sym, ap, subst, ◌∙◌, ◌⊎◌, true, false, Option, none, some, inl, inr, List, [], ◌∷◌, In,
  Bool-cases,
}
use dstate.Types.Envelope.{NodeId, Clock, StateViewObject}
use dstate.Types.Generation.{Generation, gt, antisym}
use dstate.ViewMap.Laws.{kept}
use dstate.Shard.State.{ShardCore, InboundSnapshot, get_view}
use dstate.Shard.Inbound.{should_accept, snapshot_update, snapshot_entry, accept_inbound_snapshot}
use dstate.Laws.Pending.{get_view-accept}
use dstate.Laws.Newest.{
  said, AllFrom, IsNewest, IsNewest-newer, IsNewest-older, known, origin-known, bound-known,
}

module _ {S V : Type 0} where
  -- A node receives snapshots one after the other, each with its reading of the clock.
  unfoldable pub deliver : List (Clock × InboundSnapshot V) → ShardCore S V → ShardCore S V
  deliver [] s = s
  deliver ((clock, snap) ∷ rest) s = deliver rest (accept_inbound_snapshot clock snap s).0

  deliver-IsNewest :
      (source : NodeId) (snaps : List (Clock × InboundSnapshot V)) (s : ShardCore S V)
      (old : StateViewObject V)
      → AllFrom source snaps
      → get_view source s ≡ some old
      → IsNewest old (said snaps) (get_view source (deliver snaps s))
  unfolding deliver
  deliver-IsNewest source [] s old from held = record {
    entry = old;
    is = held;
    bound = λ g v none_said. absurd none_said;
    origin = inl refl;
  }
  deliver-IsNewest source ((clock, snap) ∷ rest) s old (here, from) held =
      elim (Bool-cases (gt snap.generation old.generation)) [
        | inl newer ↦ IsNewest-newer old mid (said rest) _ newer (
            deliver-IsNewest source rest _ mid from
              (after (some mid) (unfold snapshot_update should_accept in rw newer refl)))
        | inr late ↦ IsNewest-older old snap.generation snap.view (said rest) _ late (
            deliver-IsNewest source rest _ old from
              (after none (unfold snapshot_update should_accept in rw late refl)))
      ]
    where
      mid : StateViewObject V
      mid = snapshot_entry clock snap old.pending_remote_generation

      after :
          (o : Option (StateViewObject V))
          → snapshot_update clock snap (some old) ≡ o
          → get_view source (accept_inbound_snapshot clock snap s).0 ≡ kept (some old) o
      after o e =
          ap (λ (n : NodeId). get_view n (accept_inbound_snapshot clock snap s).0) (sym here)
          ∙ get_view-accept clock snap s (some old) (ap (λ (n : NodeId). get_view n s) here ∙ held)
          ∙ ap (kept (some old)) e

  -- Two nodes hold the same entry of `source`, such as the placeholder of its join, and receive
  -- snapshots of it that say the same, each in its own order, at its own times and with its own
  -- repetitions. If a generation has one view in the snapshots, both end with the same generation and
  -- the same view of `source`. The two are a generation with its view as a snapshot or the entry at the
  -- start had them together, and neither a snapshot nor that entry was of a newer generation.
  pub deliver-converges :
      (source : NodeId) (xs ys : List (Clock × InboundSnapshot V)) (s t : ShardCore S V)
      (old : StateViewObject V)
      → AllFrom source xs
      → AllFrom source ys
      → get_view source s ≡ some old
      → get_view source t ≡ some old
      → ((g : Generation) (v : V) → In (g, v) (said xs) → In (g, v) (said ys))
      → ((g : Generation) (v : V) → In (g, v) (said ys) → In (g, v) (said xs))
      → ((g : Generation) (v w : V) → In (g, v) (said xs) → In (g, w) (said xs) → v ≡ w)
      → (a b : StateViewObject V) × (get_view source (deliver xs s) ≡ some a)
        × (get_view source (deliver ys t) ≡ some b)
        × (a.generation ≡ b.generation)
        × (a.value ≡ b.value)
        × In (a.generation, a.value) (known old (said xs))
        × ((g : Generation) (v : V) → In (g, v) (known old (said xs)) → gt g a.generation ≡ false)
  deliver-converges source xs ys s t old from_x from_y hs ht to back one =
      let n = deliver-IsNewest source xs s old from_x hs in
      let m = deliver-IsNewest source ys t old from_y ht in
      let (same, view) = agree n.entry m.entry n.origin m.origin n.bound m.bound in
      (
        n.entry,
        m.entry,
        n.is,
        m.is,
        same,
        view,
        origin-known old (said xs) n.entry n.origin,
        bound-known old (said xs) n.entry n.origin n.bound,
      )
    where
      Origin : List (Generation × V) → StateViewObject V → Type 0
      Origin heard e =
          (e ≡ old) ⊎ (In (e.generation, e.value) heard × (gt e.generation old.generation ≡ true))

      clash :
          (x y : StateViewObject V)
          → y ≡ old
          → gt x.generation y.generation ≡ false
          → gt x.generation old.generation ≡ true
          → ⊥
      clash x y e not_above above = cc

      agree :
          (a b : StateViewObject V)
          → Origin (said xs) a
          → Origin (said ys) b
          → ((g : Generation) (v : V) → In (g, v) (said xs) → gt g a.generation ≡ false)
          → ((g : Generation) (v : V) → In (g, v) (said ys) → gt g b.generation ≡ false)
          → (a.generation ≡ b.generation) × (a.value ≡ b.value)
      agree a b (inl p) (inl q) ba bb =
          let same : a ≡ b = p ∙ sym q in
          (
            ap (λ (x : StateViewObject V). x.generation) same,
            ap (λ (x : StateViewObject V). x.value) same,
          )
      agree a b (inl p) (inr (there, above)) ba bb =
          absurd (clash b a p (ba b.generation b.value (back b.generation b.value there)) above)
      agree a b (inr (there, above)) (inl q) ba bb =
          absurd (clash a b q (bb a.generation a.value (to a.generation a.value there)) above)
      agree a b (inr (i, above)) (inr (j, higher)) ba bb =
          let same : a.generation ≡ b.generation =
            antisym a.generation b.generation (bb a.generation a.value (to a.generation a.value i))
              (ba b.generation b.value (back b.generation b.value j)) in
          (
            same,
            one b.generation a.value b.value
                (subst (λ (g : Generation). In (g, a.value) (said xs)) same i)
                (back b.generation b.value j),
          )

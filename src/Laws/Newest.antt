-- ===== src/Laws/Newest.antt =====
-- The newest of what the snapshots of one source say, by the order of dstate/src/types/node.rs.
use dstate.Base.{
  ◌≡◌, ap, ◌∙◌, ◌⊎◌, true, false, Option, some, inl, inr, List, [], ◌∷◌, map, In, arith,
}
use dstate.Types.Envelope.{NodeId, Clock, StateViewObject}
use dstate.Types.Generation.{Generation, gt, gt_trans}
use dstate.Shard.State.{InboundSnapshot}

not_newer_self : (g h : Generation) → h ≡ g → gt g h ≡ false
unfolding gt
not_newer_self g h e = ground arith

not_newer_below : (g h old : Generation) → gt g old ≡ false → gt h old ≡ true → gt g h ≡ false
unfolding gt
not_newer_below g h old a b = ground arith

older : (g h : Generation) → gt h g ≡ true → gt g h ≡ false
unfolding gt
older g h e = ground arith

module _ {V : Type 0} where
  -- What the snapshots say: the generations, each with its view.
  abbrev pub said : List (Clock × InboundSnapshot V) → List (Generation × V)
  said snaps = map (λ x. (x.1.generation, x.1.view)) snaps

  abbrev pub AllFrom : NodeId → List (Clock × InboundSnapshot V) → Type 0
  AllFrom source [] = Unit
  AllFrom source (x ∷ rest) = (x.1.source ≡ source) × AllFrom source rest

  -- Of `old` and what is said, the entry holds the newest.
  pub record IsNewest (old : StateViewObject V) (heard : List (Generation × V))
      (held : Option (StateViewObject V)) : Type 0 where
    pub entry : StateViewObject V
    pub is : held ≡ some entry
    pub bound : (g : Generation) (v : V) → In (g, v) heard → gt g entry.generation ≡ false
    pub origin :
        (entry ≡ old)
        ⊎ (In (entry.generation, entry.value) heard × (gt entry.generation old.generation ≡ true))

  -- One more snapshot in front that is newer than `old`.
  pub IsNewest-newer :
      (old mid : StateViewObject V) (heard : List (Generation × V))
      (held : Option (StateViewObject V))
      → gt mid.generation old.generation ≡ true
      → IsNewest mid heard held
      → IsNewest old ((mid.generation, mid.value) ∷ heard) held
  IsNewest-newer old mid heard held newer n = record {
    entry = n.entry;
    is = n.is;
    bound = bound;
    origin = inr (origin n.origin);
  }
    where
      first :
          (n.entry ≡ mid)
            ⊎ (In (n.entry.generation, n.entry.value) heard
                × (gt n.entry.generation mid.generation ≡ true))
          → gt mid.generation n.entry.generation ≡ false
      first (inl same) =
          not_newer_self mid.generation n.entry.generation
            (ap (λ (x : StateViewObject V). x.generation) same)
      first (inr (there, above)) = older mid.generation n.entry.generation above

      bound :
          (g : Generation) (v : V)
          → In (g, v) ((mid.generation, mid.value) ∷ heard)
          → gt g n.entry.generation ≡ false
      bound g v (inl here) =
          ap (λ (x : Generation × V). gt x.0 n.entry.generation) here ∙ first n.origin
      bound g v (inr there) = n.bound g v there

      origin :
          (n.entry ≡ mid)
            ⊎ (In (n.entry.generation, n.entry.value) heard
                × (gt n.entry.generation mid.generation ≡ true))
          → In (n.entry.generation, n.entry.value) ((mid.generation, mid.value) ∷ heard)
            × (gt n.entry.generation old.generation ≡ true)
      origin (inl same) = (
        inl (ap (λ (x : StateViewObject V). (x.generation, x.value)) same),
        ap (λ (x : StateViewObject V). gt x.generation old.generation) same ∙ newer,
      )
      origin (inr (there, above)) =
          (inr there, gt_trans n.entry.generation mid.generation old.generation above newer)

  -- One more snapshot in front that is not.
  pub IsNewest-older :
      (old : StateViewObject V) (g : Generation) (v : V) (heard : List (Generation × V))
      (held : Option (StateViewObject V))
      → gt g old.generation ≡ false
      → IsNewest old heard held
      → IsNewest old ((g, v) ∷ heard) held
  IsNewest-older old g v heard held late n = record {
    entry = n.entry;
    is = n.is;
    bound = bound;
    origin = origin n.origin;
  }
    where
      first :
          (n.entry ≡ old)
            ⊎ (In (n.entry.generation, n.entry.value) heard
                × (gt n.entry.generation old.generation ≡ true))
          → gt g n.entry.generation ≡ false
      first (inl same) = ap (λ (x : StateViewObject V). gt g x.generation) same ∙ late
      first (inr (there, above)) = not_newer_below g n.entry.generation old.generation late above

      bound :
          (h : Generation) (w : V) → In (h, w) ((g, v) ∷ heard) → gt h n.entry.generation ≡ false
      bound h w (inl here) =
          ap (λ (x : Generation × V). gt x.0 n.entry.generation) here ∙ first n.origin
      bound h w (inr there) = n.bound h w there

      origin :
          (n.entry ≡ old)
            ⊎ (In (n.entry.generation, n.entry.value) heard
                × (gt n.entry.generation old.generation ≡ true))
          → (n.entry ≡ old)
            ⊎ (In (n.entry.generation, n.entry.value) ((g, v) ∷ heard)
                × (gt n.entry.generation old.generation ≡ true))
      origin (inl same) = inl same
      origin (inr (there, above)) = inr (inr there, above)

  -- What is said, and the entry at the start.
  abbrev pub known : StateViewObject V → List (Generation × V) → List (Generation × V)
  known old heard = (old.generation, old.value) ∷ heard

  pub origin-known :
      (old : StateViewObject V) (heard : List (Generation × V)) (e : StateViewObject V)
      → (e ≡ old) ⊎ (In (e.generation, e.value) heard × (gt e.generation old.generation ≡ true))
      → In (e.generation, e.value) (known old heard)
  origin-known old heard e (inl same) =
      inl (ap (λ (x : StateViewObject V). (x.generation, x.value)) same)
  origin-known old heard e (inr (there, above)) = inr there

  not_older_than_start :
      (old : StateViewObject V) (heard : List (Generation × V)) (e : StateViewObject V)
      → (e ≡ old) ⊎ (In (e.generation, e.value) heard × (gt e.generation old.generation ≡ true))
      → gt old.generation e.generation ≡ false
  not_older_than_start old heard e (inl same) =
      not_newer_self old.generation e.generation (ap (λ (x : StateViewObject V). x.generation) same)
  not_older_than_start old heard e (inr (there, above)) = older old.generation e.generation above

  pub bound-known :
      (old : StateViewObject V) (heard : List (Generation × V)) (e : StateViewObject V)
      → (e ≡ old) ⊎ (In (e.generation, e.value) heard × (gt e.generation old.generation ≡ true))
      → ((g : Generation) (v : V) → In (g, v) heard → gt g e.generation ≡ false)
      → (g : Generation) (v : V) → In (g, v) (known old heard)
      → gt g e.generation ≡ false
  bound-known old heard e origin bound g v (inl here) =
      ap (λ (x : Generation × V). gt x.0 e.generation) here
      ∙ not_older_than_start old heard e origin
  bound-known old heard e origin bound g v (inr there) = bound g v there

-- ===== src/Laws/Queries.antt =====
-- Which peers a query reports and asks, and its result.
use dstate.Base.{
  String, ◌≡◌, ◌≢◌, ◌↔◌, ◌⊎◌, refl, sym, subst, ap, ◌∙◌, Bool, true, false, some, List, [], ◌∷◌,
  arith, ◌==◌, eq_iff, if◌then◌else◌, ◌&&◌, not, inl, inr, map, Bool-cases, NotIn, Nodup, In,
  filter,
}
use dstate.HashMap
use dstate.HashMap.{HashMap, keys}
use dstate.HashMap.Laws.{get-NotIn}
use dstate.Types.Config.{Duration}
use dstate.Types.Envelope.{NodeId, Clock, StateViewObject}
use dstate.Types.Message.{request_snapshot}
use dstate.ViewMap
use dstate.ViewMap.{is_stale}
use dstate.Shard.State.{get_view, snapshot}
use dstate.Shard.Query.{query_local, result_of}
use dstate.Lifecycle.{should_accept_from}
use dstate.Engine.State.{Engine, EngineAction, send_sync, EngineQueryResult, fresh, stale}
use dstate.Engine.Query.{query, pulls, answer}
use dstate.Engine.Keeps.{WellFormed}

module _ {V : Type 0} where
  filter-both :
      (p q : String × V → Bool) (m : HashMap V) → filter p (filter q m) ≡ filter (λ e. q e && p e) m
  filter-both p q [] = refl
  filter-both p q (e ∷ m) = ground (arith, filter-both p q m)

  Found : (String × V → Bool) → HashMap V → String → Type 0
  Found p m n = (v : V) × (HashMap.get n m ≡ some v) × (p (n, v) ≡ true)

  get_later :
      (n k : String) (w v : V) (m : HashMap V)
      → NotIn k (keys m)
      → HashMap.get n m ≡ some v
      → HashMap.get n ((k, w) ∷ m) ≡ some v
  unfolding HashMap.get
  get_later n k w v m absent found = ground (arith, eq_iff k n, get-NotIn k m absent)

  filter-Found-later :
      (p : String × V → Bool) (n k : String) (w : V) (m : HashMap V)
      → NotIn k (keys m)
      → Found p m n
      → Found p ((k, w) ∷ m) n
  unfolding Found
  filter-Found-later p n k w m absent (v, found, test) = (v, get_later n k w v m absent found, test)

  filter-Found-step :
      (p : String × V → Bool) (n k : String) (w : V) (m : HashMap V)
      → NotIn k (keys m)
      → (In n (keys (filter p m)) → Found p m n)
      → (b : Bool) → p (k, w) ≡ b
      → In n (keys (if b then (k, w) ∷ filter p m else filter p m))
      → Found p ((k, w) ∷ m) n
  unfolding Found HashMap.get
  filter-Found-step p n k w m absent rest true test (inl same) =
      (w, ground (arith, eq_iff k n), ap (λ (x : String). p (x, w)) same ∙ test)
  filter-Found-step p n k w m absent rest true test (inr there) =
      filter-Found-later p n k w m absent (rest there)
  filter-Found-step p n k w m absent rest false test there =
      filter-Found-later p n k w m absent (rest there)

  filter-Found :
      (p : String × V → Bool) (n : String) (m : HashMap V)
      → Nodup (keys m)
      → In n (keys (filter p m))
      → Found p m n
  filter-Found p n [] distinct there = absurd there
  filter-Found p n ((k, w) ∷ m) (absent, distinct) there =
      filter-Found-step p n k w m absent (filter-Found p n m distinct) (p (k, w)) refl there

  Found-cases :
      (p : String × V → Bool) (n k : String) (w : V) (m : HashMap V)
      → Found p ((k, w) ∷ m) n
      → ((n ≡ k) × (p (k, w) ≡ true)) ⊎ Found p m n
  unfolding Found HashMap.get
  Found-cases p n k w m (v, found, test) = elim (Bool-cases (k == n)) [
    | inl same ↦
        let at : k ≡ n = ground (arith, eq_iff k n) in
        let value : w ≡ v = ground (arith, eq_iff k n) in
        inl (sym at, ap (λ (x : String). p (x, w)) at ∙ ap (λ (x : V). p (n, x)) value ∙ test)
    | inr other ↦ inr (v, ground (arith, eq_iff k n), test)
  ]

  Found-filter-step :
      (p : String × V → Bool) (n k : String) (w : V) (m : HashMap V)
      → (Found p m n → In n (keys (filter p m)))
      → ((n ≡ k) × (p (k, w) ≡ true)) ⊎ Found p m n
      → (b : Bool) → p (k, w) ≡ b
      → In n (keys (if b then (k, w) ∷ filter p m else filter p m))
  Found-filter-step p n k w m rest (inl (same, test)) true e = inl same
  Found-filter-step p n k w m rest (inl (same, test)) false e = cc
  Found-filter-step p n k w m rest (inr found) true e = inr (rest found)
  Found-filter-step p n k w m rest (inr found) false e = rest found

  Found-filter :
      (p : String × V → Bool) (n : String) (m : HashMap V) → Found p m n → In n (keys (filter p m))
  unfolding Found HashMap.get
  Found-filter p n [] (v, found, test) = cc
  Found-filter p n ((k, w) ∷ m) h =
      Found-filter-step p n k w m (Found-filter p n m) (Found-cases p n k w m h) (p (k, w)) refl

filter-all :
    (p : NodeId → Bool) (l : List NodeId) → ((n : NodeId) → In n l → p n ≡ true) → filter p l ≡ l
filter-all p [] all = refl
filter-all p (n ∷ l) all =
    rw (all n (inl refl)) (ap (◌∷◌ n) (filter-all p l (λ m there. all m (inr there))))

-- The peers that an answer reports.
abbrev pub behind : {R : Type 0} → EngineQueryResult R → List NodeId
behind (fresh r) = []
behind (stale r peers) = peers

abbrev pub answered : {R : Type 0} → EngineQueryResult R → R
answered (fresh r) = r
answered (stale r peers) = r

module _ {S V : Type 0} where
  -- Another node whose view is too old, or is known to be out of date.
  abbrev pub IsBehind : Clock → Duration → Engine S V → NodeId → Type 0
  IsBehind clock max_staleness e n =
      (n ≢ e.shard.node_id)
      × (vo : StateViewObject V) × (get_view n e.shard ≡ some vo)
      × (is_stale clock.now max_staleness vo ≡ true)

  test : Clock → Duration → Engine S V → String × StateViewObject V → Bool
  test clock max_staleness e x =
      not (x.0 == e.shard.node_id) && is_stale clock.now max_staleness x.1

  stale_list : Clock → Duration → Engine S V → List NodeId
  stale_list clock max_staleness e = keys (filter (test clock max_staleness e) (snapshot e.shard))

  query-stale_list :
      {R : Type 0} (clock : Clock) (max_staleness : Duration)
      (project : HashMap (StateViewObject V) → R) (e : Engine S V)
      → query clock max_staleness project e
        ≡ answer (result_of (stale_list clock max_staleness e) (project (snapshot e.shard))) e
  unfolding query query_local stale_list test
  query-stale_list clock max_staleness project e =
      ap (λ l. answer (result_of (keys l) (project (snapshot e.shard))) e)
        (filter-both {V = StateViewObject V} (λ x. is_stale clock.now max_staleness x.1)
          (λ x. not (x.0 == e.shard.node_id)) (snapshot e.shard))

  stale_list-IsBehind :
      (clock : Clock) (max_staleness : Duration) (e : Engine S V) (n : NodeId)
      → WellFormed e
      → In n (stale_list clock max_staleness e) ↔ IsBehind clock max_staleness e n
  unfolding stale_list test Found get_view ViewMap.get
  stale_list-IsBehind clock max_staleness e n h = (
    λ there.
        let (vo, held, both) =
          filter-Found (test clock max_staleness e) n (snapshot e.shard) h.distinct there in
        (λ same. ground (arith, eq_iff n e.shard.node_id), vo, held, ground arith),
    λ (other, vo, held, late).
        Found-filter (test clock max_staleness e) n (snapshot e.shard)
          (vo, held, ground (arith, eq_iff n e.shard.node_id)),
  )

  heard :
      (e : Engine S V) (n : NodeId) (vo : StateViewObject V)
      → WellFormed e
      → n ≢ e.shard.node_id
      → get_view n e.shard ≡ some vo
      → should_accept_from n e.lifecycle ≡ true
  unfolding get_view
  heard e n vo h other held = elim (h.sound.at n vo held).2 [
    | inl accepts ↦ accepts
    | inr self ↦ absurd (other self)
  ]

  answer_lem :
      {R : Type 0} (l : List NodeId) (r : R) (e : Engine S V)
      → let a = answer (result_of l r) e in
        (answered a.0 ≡ r)
        × (behind a.0 ≡ l)
        × (a.1 ≡ (if e.sync_logic.strategy.pull_on_query then pulls l e else []))
  answer_lem [] r e = (refl, refl, ground arith)
  answer_lem (n ∷ l) r e = (refl, refl, refl)

  -- A query of a well-formed engine answers with the projection of all the views that the node holds. It reports exactly the
  -- other nodes whose view is older than allowed or known to be out of date, so that it is fresh
  -- exactly if there is none; and where the strategy pulls on a query it asks each of them for a
  -- snapshot, and else nobody.
  pub query_reports :
      {R : Type 0} (clock : Clock) (max_staleness : Duration)
      (project : HashMap (StateViewObject V) → R) (e : Engine S V)
      → WellFormed e
      → let q = query clock max_staleness project e in
        (answered q.0 ≡ project (snapshot e.shard))
        × ((n : NodeId) → In n (behind q.0) ↔ IsBehind clock max_staleness e n)
        × (q.1 ≡ (
            if e.sync_logic.strategy.pull_on_query
            then map
                (λ peer. send_sync peer (request_snapshot e.state_name e.shard.node_id))
                (behind q.0)
            else []))
  query_reports {R = R} clock max_staleness project e h =
      let l = stale_list clock max_staleness e in
      let (result, reported, actions) = answer_lem l (project (snapshot e.shard)) e in
      let all =
        filter-all (λ peer. should_accept_from peer e.lifecycle) l
          (λ n there.
            let (other, vo, held, late) = (stale_list-IsBehind clock max_staleness e n h).0 there in
            heard e n vo h other held) in
      subst
        (λ (q : EngineQueryResult R × List EngineAction).
          (answered q.0 ≡ project (snapshot e.shard))
          × ((n : NodeId) → In n (behind q.0) ↔ IsBehind clock max_staleness e n)
          × (q.1 ≡ (
              if e.sync_logic.strategy.pull_on_query
              then map (λ peer. send_sync peer (request_snapshot e.state_name e.shard.node_id))
                  (behind q.0)
              else [])))
        (sym (query-stale_list clock max_staleness project e))
        (
          result,
          λ n.
              subst (λ (x : List NodeId). In n x ↔ IsBehind clock max_staleness e n) (sym reported)
                (stale_list-IsBehind clock max_staleness e n h),
          actions ∙ rw (all, reported),
        )

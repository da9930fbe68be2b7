-- ===== src/Integration/Settle.antt =====
-- That `settle_with_limit` ends, and with what.
use dstate.Base.{
  ℕ, zero, suc, ◌+◌, ◌≤◌, ◌≡◌, refl, ap, ◌∙◌, String, true, false, Bool-cases, ◌⊎◌, inl, inr, none,
  some, arith,
}
use dstate.Types.Errors.{Result}
use dstate.Types.Message.{Bytes, WireMessage}
use dstate.Integration.Cluster.{MockCluster, is_settled}
use dstate.Integration.Tick.{and_then, tick, tick_n, settle_from, settle_with_limit}
use dstate.Integration.Phases.{tick-Sound}
use dstate.Integration.Sound.{IsSound}
use dstate.Integration.Reachable.{Reachable, Reachable-IsSound}

module _ {S V : Type 0} (serialize : WireMessage → Bytes)
    (deserialize : Bytes → Result String WireMessage) where
  -- For `n` ticks the cluster is not settled before the tick.
  abbrev pub Waits : ℕ → MockCluster S V → Type 1
  Waits zero c = Unit
  Waits (suc n) c =
      (is_settled c ≡ false)
      × (c' : MockCluster S V) × (tick serialize deserialize c ≡ some c')
      × Waits n c'

  -- The loop returns after the first number of ticks with which the cluster is settled.
  pub record Settles (left ticks : ℕ) (c : MockCluster S V) : Type 1 where
    pub n : ℕ
    pub final : MockCluster S V
    pub returns : settle_from serialize deserialize left ticks c ≡ some (ticks + n, final)
    pub within : n ≤ left
    pub waits : Waits n c
    pub reached : tick_n serialize deserialize n c ≡ some final
    pub settled : is_settled final ≡ true

  -- The assertion fails, and the cluster has not been settled at any of the ticks.
  pub record Exceeds (left ticks : ℕ) (c : MockCluster S V) : Type 1 where
    pub final : MockCluster S V
    pub fails : settle_from serialize deserialize left ticks c ≡ none
    pub waits : Waits left c
    pub reached : tick_n serialize deserialize left c ≡ some final
    pub unsettled : is_settled final ≡ false

  settled_now :
      (left ticks : ℕ) (c : MockCluster S V)
      → is_settled c ≡ true
      → settle_from serialize deserialize left ticks c ≡ some (ticks, c)
  unfolding settle_from
  settled_now zero ticks c h = rw h refl
  settled_now (suc left) ticks c h = rw h refl

  at_once : (left ticks : ℕ) (c : MockCluster S V) → is_settled c ≡ true → Settles left ticks c
  unfolding tick_n
  at_once left ticks c h =
      let none_more : ticks ≡ ticks + 0 = omega arith in
      record {
        n = 0;
        final = c;
        returns = settled_now left ticks c h ∙ ap (λ t. some (t, c)) none_more;
        within = omega arith;
        waits = tt;
        reached = refl;
        settled = h;
      }

  -- The rest of the loop after a tick from a cluster that is not settled.
  one_more :
      (left ticks : ℕ) (c c' : MockCluster S V)
      → is_settled c ≡ false
      → tick serialize deserialize c ≡ some c'
      → settle_from serialize deserialize (suc left) ticks c
        ≡ settle_from serialize deserialize left (suc ticks) c'
  unfolding settle_from
  one_more left ticks c c' h t =
      rw h (ap (λ o. and_then o (settle_from serialize deserialize left (suc ticks))) t)

  ticked_first :
      (n : ℕ) (c c' : MockCluster S V)
      → tick serialize deserialize c ≡ some c'
      → tick_n serialize deserialize (suc n) c ≡ tick_n serialize deserialize n c'
  unfolding tick_n
  ticked_first n c c' t = ap (λ o. and_then o (tick_n serialize deserialize n)) t

  after_tick :
      (left ticks : ℕ) (c c' : MockCluster S V)
      → is_settled c ≡ false
      → tick serialize deserialize c ≡ some c'
      → Settles left (suc ticks) c' ⊎ Exceeds left (suc ticks) c'
      → Settles (suc left) ticks c ⊎ Exceeds (suc left) ticks c
  after_tick left ticks c c' h t (inl s) =
      let count : suc ticks + s.n ≡ ticks + suc s.n = omega arith in
      inl (record {
        n = suc s.n;
        final = s.final;
        returns = one_more left ticks c c' h t ∙ s.returns ∙ ap (λ k. some (k, s.final)) count;
        within = omega (arith, s.within);
        waits = (h, c', t, s.waits);
        reached = ticked_first s.n c c' t ∙ s.reached;
        settled = s.settled;
      })
  after_tick left ticks c c' h t (inr x) = inr (record {
    final = x.final;
    fails = one_more left ticks c c' h t ∙ x.fails;
    waits = (h, c', t, x.waits);
    reached = ticked_first left c c' t ∙ x.reached;
    unsettled = x.unsettled;
  })

  decides :
      (left ticks : ℕ) (c : MockCluster S V)
      → IsSound c
      → Settles left ticks c ⊎ Exceeds left ticks c
  unfolding settle_from tick_n
  decides zero ticks c h = elim (Bool-cases (is_settled c)) [
    | inl done ↦ inl (at_once 0 ticks c done)
    | inr waits ↦
        inr (record {
          final = c;
          fails = rw waits refl;
          waits = tt;
          reached = refl;
          unsettled = waits;
        })
  ]
  decides (suc left) ticks c h = elim (Bool-cases (is_settled c)) [
    | inl done ↦ inl (at_once (suc left) ticks c done)
    | inr waits ↦
        (let t = tick-Sound serialize deserialize c h in
          after_tick left ticks c t.value waits t.returns
            (decides left (suc ticks) t.value t.holds))
  ]

  -- `settle_with_limit` on a cluster that the operations build either returns the least number of ticks
  -- after which the cluster is settled, at most the limit, with the cluster after
  -- exactly these ticks; or its assertion fails, and then the cluster has been settled neither at the
  -- start nor after any number of ticks up to the limit.
  pub settle_with_limit-decides :
      (max_ticks : ℕ) (c : MockCluster S V)
      → Reachable serialize deserialize c
      → ((n : ℕ) × (final : MockCluster S V) × (settle_with_limit serialize deserialize max_ticks c
            ≡ some (n, final))
          × (n ≤ max_ticks)
          × Waits n c
          × (tick_n serialize deserialize n c ≡ some final)
          × (is_settled final ≡ true))
        ⊎ ((final : MockCluster S V) × (settle_with_limit serialize deserialize max_ticks c ≡ none)
            × Waits max_ticks c
            × (tick_n serialize deserialize max_ticks c ≡ some final)
            × (is_settled final ≡ false))
  unfolding settle_with_limit
  settle_with_limit-decides max_ticks c r =
      elim (decides max_ticks 0 c (Reachable-IsSound serialize deserialize c r)) [
        | inl s ↦
            (let count : 0 + s.n ≡ s.n = omega arith in
              inl (
                s.n,
                s.final,
                s.returns ∙ ap (λ k. some (k, s.final)) count,
                s.within,
                s.waits,
                s.reached,
                s.settled,
              ))
        | inr x ↦ inr (x.final, x.fails, x.waits, x.reached, x.unsettled)
      ]

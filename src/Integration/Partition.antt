-- ===== src/Integration/Partition.antt =====
-- What a partition cuts, and what it leaves.
use mathlib.Core.List.{append-nil}
use dstate.Base.{
  ◌≡◌, refl, ap, ◌∙◌, inc_u64, true, false, ◌⊎◌, List, [], ◌∷◌, ◌++◌, map, arith, In, eq_iff,
}
use dstate.Types.Envelope.{NodeId}
use dstate.Types.Message.{Bytes}
use dstate.Integration.Interceptor.{
  InterceptAction, deliver, drop, delay, deliver_many, InterceptContext, NetworkInterceptor, boxed,
  Partition, partition, contains,
}
use dstate.Integration.Transport.{
  in_flight_message, MockTransport, Sorted, sort_action, intercept_pending, intercept_all, queued,
  queued_all, send_bytes,
}
use dstate.Integration.Pipeline.{nothing, all_nothing, context_of, sent_through}

-- The partition separates the two nodes in this direction.
abbrev pub Cuts : Partition → NodeId → NodeId → Type 0
Cuts p from to =
    (In from p.set_a × In to p.set_b) ⊎ (p.asymmetric ≡ false) × In from p.set_b × In to p.set_a

abbrev IsNotDelay : InterceptAction → Type 0
IsNotDelay (delay bytes ticks) = ⊥
IsNotDelay _ = Unit

-- The interceptor never answers `Delay`, in whatever state it is.
abbrev pub NeverDelays : NetworkInterceptor → Type 0
NeverDelays i =
    (s : i.Self) (from to : NodeId) (bytes : Bytes) (context : InterceptContext)
    → IsNotDelay (i.intercept s from to bytes context).1

abbrev pub NoneDelays : List NetworkInterceptor → Type 0
NoneDelays [] = Unit
NoneDelays (i ∷ interceptors) = NeverDelays i × NoneDelays interceptors

contains-In : (n : NodeId) (set : List NodeId) → In n set → contains n set ≡ true
unfolding contains
contains-In n [] h = absurd h
contains-In n (m ∷ set) h = ground (arith, eq_iff m n, contains-In n set)

In-contains : (n : NodeId) (set : List NodeId) → contains n set ≡ true → In n set
unfolding contains
In-contains n [] h = ground arith
In-contains n (m ∷ set) h = ground (arith, eq_iff m n, In-contains n set)

module _ (from to : NodeId) (context : InterceptContext) where
  partition_drops :
      (p : Partition) (bytes : Bytes) → Cuts p from to → partition p from to bytes context ≡ drop
  unfolding partition
  partition_drops p bytes h = ground (
    arith,
    contains-In from p.set_a,
    contains-In to p.set_b,
    contains-In from p.set_b,
    contains-In to p.set_a,
  )

  partition_leaves :
      (p : Partition) (bytes : Bytes)
      → ¬ Cuts p from to
      → partition p from to bytes context ≡ deliver bytes
  unfolding partition
  partition_leaves p bytes h = ground (
    arith,
    In-contains from p.set_a,
    In-contains to p.set_b,
    In-contains from p.set_b,
    In-contains to p.set_a,
  )

  -- A partition that cuts leaves nothing of what is pending.
  cut_pending :
      (p : Partition) (pending : List Bytes)
      → Cuts p from to
      → (intercept_pending from to context pending (boxed (partition p))).1 ≡ nothing
  unfolding intercept_pending
  cut_pending p [] h = refl
  cut_pending p (bytes ∷ pending) h = rw (partition_drops p bytes h, cut_pending p pending h) refl

  sort_finalized :
      (action : InterceptAction) (s : Sorted)
      → IsNotDelay action
      → (sort_action action s).finalized ≡ s.finalized
  sort_finalized (deliver bytes) s h = refl
  sort_finalized drop s h = refl
  sort_finalized (delay bytes ticks) s h = absurd h
  sort_finalized (deliver_many copies) s h = refl

  undelayed_pending :
      (i : NetworkInterceptor) (pending : List Bytes)
      → NeverDelays i
      → (intercept_pending from to context pending i).1.finalized ≡ []
  unfolding intercept_pending
  undelayed_pending i [] h = refl
  undelayed_pending i (bytes ∷ pending) h =
      let r = i.intercept i.self from to bytes context in
      sort_finalized r.1 _ (h i.self from to bytes context)
      ∙ undelayed_pending (record i { self = r.0 }) pending h

  -- A partition that cuts, after interceptors that do not delay.
  cut_all :
      (p : Partition) (before after : List NetworkInterceptor) (pending : List Bytes)
      → NoneDelays before
      → Cuts p from to
      → (intercept_all from to context pending (before ++ boxed (partition p) ∷ after)).1 ≡ nothing
  unfolding intercept_all
  cut_all p [] after pending n h =
      rw (cut_pending p pending h, all_nothing from to context after) refl
  cut_all p (i ∷ before) after pending n h =
      rw
        (
          undelayed_pending i pending n.0,
          cut_all p before after (intercept_pending from to context pending i).1.next_pending n.1 h,
        )
        refl

-- A partition anywhere in the chain, after interceptors that never delay and before any others,
-- cuts the direction from one of its sides to the other, and the way back if it is symmetric: a message
-- that is sent there puts nothing in flight.
pub partition-Cuts :
    (p : Partition) (from to : NodeId) (bytes : Bytes) (before after : List NetworkInterceptor)
    (t : MockTransport)
    → t.interceptors ≡ before ++ boxed (partition p) ∷ after
    → NoneDelays before
    → Cuts p from to
    → (send_bytes from to bytes t).in_flight ≡ t.in_flight
unfolding queued_all
partition-Cuts p from to bytes before after t chain undelayed cuts =
    sent_through from to bytes _ t chain
    ∙ ap
        (λ s.
          t.in_flight
          ++ queued_all from to t.current_tick (s.finalized ++ map deliver s.next_pending))
        (cut_all from to (context_of t) p before after (bytes ∷ []) undelayed cuts)
    ∙ append-nil t.in_flight

-- A partition alone leaves every other direction, also inside one side and the way back if it is
-- asymmetric, as it was: the message goes in flight, once, for the next tick.
pub partition_leaves_others :
    (p : Partition) (from to : NodeId) (bytes : Bytes) (t : MockTransport)
    → t.interceptors ≡ boxed (partition p) ∷ []
    → ¬ Cuts p from to
    → (send_bytes from to bytes t).in_flight
      ≡ t.in_flight ++ in_flight_message from to (inc_u64 t.current_tick) bytes ∷ []
unfolding queued_all queued intercept_all intercept_pending
partition_leaves_others p from to bytes t chain uncut =
    sent_through from to bytes _ t chain
    ∙ rw (partition_leaves from to (context_of t) p bytes uncut) refl

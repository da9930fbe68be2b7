-- ===== src/Laws/Feed.antt =====
-- The change feed: what stays pending, what a batch holds and what reaches the others.
use dstate.Base.{
  String, ◌≡◌, ◌≢◌, refl, sym, subst, ap, ◌∙◌, false, Option, none, some, List, [], ◌∷◌, arith,
  ◌==◌, eq_refl, eq_iff, if◌then◌else◌, ◌&&◌, inl, inr, map, Bool-cases,
}
use dstate.Types.Envelope.{NodeId}
use dstate.Types.Generation.{Generation, gt}
use dstate.Types.Message.{ChangeNotification, BatchedChangeFeed}
use dstate.ChangeFeed.{
  ChangeFeedLogic, notify_entry, notify_change, notification, drained, flush, route_inbound_batch,
}

-- The generation that is pending for a state and a node.
abbrev pub pending_for : String → NodeId → List (String × NodeId × Generation) → Option Generation
pending_for name source [] = none
pending_for name source ((n, s, g) ∷ rest) =
    let later = pending_for name source rest in if n == name && s == source then some g else later

-- The newer of a pending generation and another.
abbrev pub newest : Generation → Option Generation → Generation
newest g none = g
newest g (some old) = if gt g old then g else old

pending_for-notify_entry :
    (name n : String) (source s : NodeId) (g : Generation)
    (pending : List (String × NodeId × Generation))
    → pending_for n s (notify_entry name source g pending) ≡ (
        if name == n && source == s
        then some (newest g (pending_for n s pending))
        else pending_for n s pending)
unfolding notify_entry
pending_for-notify_entry name n source s g [] = refl
pending_for-notify_entry name n source s g ((n', s', old) ∷ rest) = ground (
  arith,
  pending_for-notify_entry name n source s g rest,
  eq_iff name n,
  eq_iff source s,
  eq_iff n' name,
  eq_iff s' source,
  eq_iff n' n,
  eq_iff s' s,
)

-- The newest generation that a list of changes has for a state and a node.
abbrev pub newest_for : String → NodeId → List (String × NodeId × Generation) → Option Generation
newest_for name source [] = none
newest_for name source ((n, s, g) ∷ rest) =
    let later = newest_for name source rest in
    if n == name && s == source then some (newest g later) else later

-- A list of changes, noted one after the other.
unfoldable pub notify_all : List (String × NodeId × Generation) → ChangeFeedLogic → ChangeFeedLogic
notify_all [] c = c
notify_all ((n, s, g) ∷ rest) c = notify_all rest (notify_change n s g c)

-- The newer of two generations that may be missing.
abbrev pub join : Option Generation → Option Generation → Option Generation
join none b = b
join (some a) b = some (newest a b)

newest_assoc :
    (g : Generation) (a b : Option Generation)
    → join a (some (newest g b)) ≡ join (some (newest g a)) b
unfolding gt
newest_assoc g none none = refl
newest_assoc g none (some b) = ground arith
newest_assoc g (some a) none = ground arith
newest_assoc g (some a) (some b) = ground arith

pending_for-notify_all :
    (n : String) (s : NodeId) (xs : List (String × NodeId × Generation)) (c : ChangeFeedLogic)
    → pending_for n s (notify_all xs c).pending
      ≡ join (newest_for n s xs) (pending_for n s c.pending)
unfolding notify_all notify_change
pending_for-notify_all n s [] c = refl
pending_for-notify_all n s ((name, source, g) ∷ xs) c =
    elim (Bool-cases (name == n && source == s)) [
      | inl same ↦
          pending_for-notify_all n s xs _
          ∙ rw (pending_for-notify_entry name n source s g c.pending, same)
              (newest_assoc g (newest_for n s xs) (pending_for n s c.pending))
      | inr other ↦
          pending_for-notify_all n s xs _
          ∙ rw (pending_for-notify_entry name n source s g c.pending, other)
    ]

-- No entry is for the state and the node.
abbrev Unnamed : String → NodeId → List (String × NodeId × Generation) → Type 0
Unnamed name source [] = Unit
Unnamed name source ((n, s, g) ∷ rest) =
    ((n == name && s == source) ≡ false) × Unnamed name source rest

-- A state and a node have one entry at most.
abbrev pub IsDistinct : List (String × NodeId × Generation) → Type 0
IsDistinct [] = Unit
IsDistinct ((n, s, g) ∷ rest) = Unnamed n s rest × IsDistinct rest

notify_entry-Unnamed :
    (name n : String) (source s : NodeId) (g : Generation)
    (pending : List (String × NodeId × Generation))
    → (name == n && source == s) ≡ false
    → Unnamed n s pending
    → Unnamed n s (notify_entry name source g pending)
unfolding notify_entry
notify_entry-Unnamed name n source s g [] other h = (other, tt)
notify_entry-Unnamed name n source s g ((n', s', old) ∷ rest) other h =
    ground (arith, notify_entry-Unnamed name n source s g rest)

notify_entry-IsDistinct :
    (name : String) (source : NodeId) (g : Generation)
    (pending : List (String × NodeId × Generation))
    → IsDistinct pending
    → IsDistinct (notify_entry name source g pending)
unfolding notify_entry
notify_entry-IsDistinct name source g [] h = (tt, tt)
notify_entry-IsDistinct name source g ((n', s', old) ∷ rest) h = ground (
  arith,
  notify_entry-IsDistinct name source g rest,
  notify_entry-Unnamed name n' source s' g rest,
  eq_iff n' name,
  eq_iff s' source,
  eq_iff name n',
  eq_iff source s',
)

notify_all-IsDistinct :
    (xs : List (String × NodeId × Generation)) (c : ChangeFeedLogic)
    → IsDistinct c.pending
    → IsDistinct (notify_all xs c).pending
unfolding notify_all notify_change
notify_all-IsDistinct [] c h = h
notify_all-IsDistinct ((n, s, g) ∷ xs) c h =
    notify_all-IsDistinct xs _ (notify_entry-IsDistinct n s g c.pending h)

notify_all-node_id :
    (xs : List (String × NodeId × Generation)) (c : ChangeFeedLogic)
    → (notify_all xs c).node_id ≡ c.node_id
unfolding notify_all notify_change
notify_all-node_id [] c = refl
notify_all-node_id ((n, s, g) ∷ xs) c = notify_all-node_id xs (notify_change n s g c)

-- What a receiver takes from a flush.
abbrev pub routed : Option BatchedChangeFeed → NodeId → List (String × NodeId × Generation)
routed none receiver = []
routed (some batch) receiver = route_inbound_batch batch receiver

read_back :
    (xs : List (String × NodeId × Generation))
    → map
        (λ (n : ChangeNotification). (n.state_name, n.source_node, n.generation))
        (map notification xs)
      ≡ xs
read_back [] = refl
read_back (x ∷ xs) = ap (◌∷◌ x) (read_back xs)

routed-drained :
    (self receiver : NodeId) (xs : List (String × NodeId × Generation))
    → routed (drained self xs) receiver ≡ (if self == receiver then [] else xs)
unfolding route_inbound_batch
routed-drained self receiver [] = ground arith
routed-drained self receiver (x ∷ xs) = elim (Bool-cases (self == receiver)) [
  | inl same ↦ rw same
  | inr other ↦ rw other (read_back (x ∷ xs))
]

-- A node notes changes in an empty feed and flushes it. Another node that receives the batch takes
-- one entry at most for each state and source, with the newest generation that was noted for it and
-- none if none was; the node itself takes nothing from its own batch; and nothing stays pending.
pub flush_tells_newest :
    (xs : List (String × NodeId × Generation)) (c : ChangeFeedLogic)
    → c.pending ≡ []
    → let flushed = flush (notify_all xs c) in
      (flushed.0.pending ≡ [])
      × (routed flushed.1 c.node_id ≡ [])
      × ((receiver : NodeId)
          → c.node_id ≢ receiver
          → IsDistinct (routed flushed.1 receiver)
            × ((n : String) (s : NodeId)
                → pending_for n s (routed flushed.1 receiver) ≡ newest_for n s xs))
unfolding flush
flush_tells_newest xs c empty = (
  refl,
  routed-drained (notify_all xs c).node_id c.node_id (notify_all xs c).pending
      ∙ rw (notify_all-node_id xs c, eq_refl c.node_id),
  λ receiver other.
      let taken : routed (drained (notify_all xs c).node_id (notify_all xs c).pending) receiver
          ≡ (notify_all xs c).pending =
        routed-drained (notify_all xs c).node_id receiver (notify_all xs c).pending
        ∙ rw (notify_all-node_id xs c, different c.node_id receiver other) in
      (
        subst IsDistinct (sym taken) (notify_all-IsDistinct xs c (subst IsDistinct (sym empty) tt)),
        λ n s.
            ap (pending_for n s) taken
            ∙ pending_for-notify_all n s xs c
            ∙ ap (λ p. join (newest_for n s xs) (pending_for n s p)) empty
            ∙ join_none (newest_for n s xs),
      ),
)
  where
    different : (a b : NodeId) → a ≢ b → (a == b) ≡ false
    different a b other = ground (arith, eq_iff a b)

    join_none : (o : Option Generation) → join o none ≡ o
    join_none none = refl
    join_none (some g) = refl

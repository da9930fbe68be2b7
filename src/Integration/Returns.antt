-- ===== src/Integration/Returns.antt =====
-- Deliveries to a sound cluster do not panic, and `unwrap` on its nodes does not.
use dstate.Base.{
  ◌≡◌, refl, sym, ap, ◌∙◌, false≢true, Option-cases, inl, inr, Option, none, some, List, [], ◌∷◌,
  is_some,
}
use dstate.HashMap
use dstate.HashMap.{HashMap, keys, contains_key}
use dstate.Types.Envelope.{NodeId, Clock}
use dstate.Engine.State.{Engine, EngineAction}
use dstate.Engine.Keeps.{Keeps}
use dstate.Engine.Events.{step, receives}
use dstate.Engine.Invariant.{step-Keeps}
use dstate.Integration.Transport.{DeliveredMessage}
use dstate.Integration.Cluster.{MockNode, MockCluster, with_node}
use dstate.Integration.Routing.{called, kept, then_nodes, receive_at, receive_each}
use dstate.Integration.Tick.{and_then}
use dstate.Integration.Sound.{
  AllEntries, insert-AllEntries, get-AllEntries, AllPresent, insert-AllPresent, NodeIsSound,
  IsSound, with_node-IsSound,
}

-- A computation returns something that satisfies `Q`.
pub record Returns {ℓ} {A : Type ℓ} (Q : A → Type 0) (o : Option A) : Type ℓ where
  pub value : A
  pub returns : o ≡ some value
  pub holds : Q value

pub then-Returns {ℓ κ} :
    {A : Type ℓ} {B : Type κ} {Q : A → Type 0} {R : B → Type 0} (o : Option A) (f : A → Option B)
    → Returns Q o
    → ((a : A) → Q a → Returns R (f a))
    → Returns R (and_then o f)
then-Returns o f first rest =
    let second = rest first.value first.holds in
    record {
      value = second.value;
      returns = ap (λ o. and_then o f) first.returns ∙ second.returns;
      holds = second.holds;
    }

module _ {S V : Type 0} where
  abbrev pub AllSound : HashMap (MockNode S V) → Type 0
  AllSound m = AllEntries NodeIsSound m

  pub called-Sound :
      (n : NodeId) (node : MockNode S V) (nodes : HashMap (MockNode S V))
      (o : Option (Engine S V × List EngineAction)) (ids : List NodeId)
      → NodeIsSound n node
      → Keeps node.engine o
      → AllSound nodes
      → AllPresent ids nodes
      → Returns (λ r. AllSound r.0 × AllPresent ids r.0) (called n node nodes o)
  called-Sound n node nodes o ids q k h there = record {
    value = (HashMap.insert n (record node { engine = k.result.0 }) nodes, k.result.1);
    returns = ap (called n node nodes) k.returns;
    holds = (
      insert-AllEntries NodeIsSound n (record node { engine = k.result.0 }) nodes
          (record {
            well_formed = k.well_formed;
            node_id = k.same_node ∙ q.node_id;
            counter = q.counter;
          })
          h,
      insert-AllPresent ids n (record node { engine = k.result.0 }) nodes there,
    );
  }

  receive_at-Sound :
      (clock : Clock) (msg : DeliveredMessage) (nodes : HashMap (MockNode S V))
      (o : Option (MockNode S V))
      → HashMap.get msg.to nodes ≡ o
      → AllSound nodes
      → Returns (λ r. AllSound r.0) (receive_at clock msg nodes o)
  unfolding step
  receive_at-Sound clock msg nodes none e h = record { value = _; returns = refl; holds = h }
  receive_at-Sound clock msg nodes (some node) e h =
      let q = get-AllEntries NodeIsSound msg.to node nodes e h in
      let r =
        called-Sound msg.to node nodes _ [] q
          (step-Keeps {DC = Unit} {VD = Unit} (receives clock msg.message) node.engine
            q.well_formed)
          h tt in
      record { value = r.value; returns = r.returns; holds = r.holds.0 }

  pub receive_each-Sound :
      (clock : Clock) (messages : List DeliveredMessage) (nodes : HashMap (MockNode S V))
      → AllSound nodes
      → Returns (λ r. AllSound r.0) (receive_each clock messages nodes)
  unfolding receive_each
  receive_each-Sound clock [] nodes h = record { value = _; returns = refl; holds = h }
  receive_each-Sound clock (msg ∷ messages) nodes h =
      let first = receive_at-Sound clock msg nodes _ refl h in
      let rest = receive_each-Sound clock messages first.value.0 first.holds in
      record {
        value = _;
        returns =
            ap (then_nodes msg.to (receive_each clock messages)) first.returns
            ∙ ap (kept msg.to first.value.1) rest.returns;
        holds = rest.holds;
      }

  -- Sound, with the nodes of the list.
  abbrev pub Has : List NodeId → MockCluster S V → Type 0
  Has ids c = IsSound c × AllPresent ids c.nodes

  pub with_node-Has :
      (ids : List NodeId) (n : NodeId) (node : MockNode S V) (c : MockCluster S V)
      → NodeIsSound n node
      → Has ids c
      → Has ids (with_node n node c)
  with_node-Has ids n node c q h =
      (with_node-IsSound n node c q h.0, insert-AllPresent ids n node c.nodes h.1)

  -- `unwrap` on a node that is there.
  pub unwrap-Sound :
      (Q : MockCluster S V → Type 0) (n : NodeId) (ids : List NodeId) (c : MockCluster S V)
      (f : MockNode S V → Option (MockCluster S V))
      → Has (n ∷ ids) c
      → ((node : MockNode S V) → NodeIsSound n node → Returns Q (f node))
      → Returns Q (and_then (HashMap.get n c.nodes) f)
  unwrap-Sound Q n ids c f h rest = elim (Option-cases (HashMap.get n c.nodes)) [
    | inl none_there ↦ absurd (false≢true (ap is_some (sym none_there) ∙ h.1.0))
    | inr there ↦
        rw there.1 (rest there.0 (get-AllEntries NodeIsSound n there.0 c.nodes there.1 h.0.nodes))
  ]

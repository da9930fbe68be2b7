-- ===== src/ViewMap/Each.antt =====
-- A property of every entry of a view map, and how each write keeps it.
use mathlib.Core.Path.{subst₂}
use dstate.Base.{
  ◌≡◌, ◌⊎◌, true, false, subst, sym, ◌∙◌, Bool, Option, none, some, inl, inr, ◌==◌, eq_iff,
  Bool-cases, if◌then◌else◌,
}
use dstate.Types.Envelope.{NodeId, StateViewObject}
use dstate.ViewMap.{ViewMap, new, get, update, insert_node, remove_node, contains, update_if}
use dstate.ViewMap.Laws.{get-new, get-update, get-insert_node, get-remove_node, get-update_if, kept}

module _ {ℓ κ} {V : Type ℓ} (P : NodeId → StateViewObject V → Type κ) where
  -- `P` holds of every node that has an entry, and of the entry.
  pub record Each (m : ViewMap V) : Type (ℓ ⊔ κ) where
    pub at : (j : NodeId) (vo : StateViewObject V) → get j m ≡ some vo → P j vo

-- What a read in `if` form returned stands at the key that was written, or was there before.
written_or_old {ℓ} :
    {A : Type ℓ} (k j : NodeId) (o old : Option A) {a : A}
    → (if k == j then o else old) ≡ some a
    → ((k ≡ j) × (o ≡ some a)) ⊎ (old ≡ some a)
written_or_old k j o old h = elim (Bool-cases (k == j)) [
  | inl e ↦ inl ((eq_iff k j).0 e, rw e at h)
  | inr e ↦ inr (rw e at h)
]

pub some_injective {ℓ} : {A : Type ℓ} {a b : A} → some a ≡ some b → a ≡ b
some_injective e = cc

module _ {ℓ κ} {V : Type ℓ} {P : NodeId → StateViewObject V → Type κ} where
  -- One rule for every write at one key: it leaves `o` there.
  pub Each-write :
      (k : NodeId) (o : Option (StateViewObject V)) (m m' : ViewMap V)
      → ((j : NodeId) → get j m' ≡ (if k == j then o else get j m))
      → Each P m
      → ((v : StateViewObject V) → o ≡ some v → P k v)
      → Each P m'
  Each-write k o m m' reads each p = record {
    at = λ j vo e. elim (written_or_old k j o (get j m) (sym (reads j) ∙ e)) [
      | inl (same, e') ↦ subst (λ i. P i vo) same (p vo e')
      | inr old ↦ each.at j vo old
    ];
  }

  pub Each-new : (k : NodeId) (v : StateViewObject V) → P k v → Each P (new k v)
  Each-new k v p = record {
    at = λ j vo e. elim (written_or_old k j (some v) none (sym (get-new k j v) ∙ e)) [
      | inl (same, e') ↦ subst₂ P same (some_injective e') p
      | inr old ↦ cc
    ];
  }

  pub Each-update_if :
      (k : NodeId) (f : Option (StateViewObject V) → Option (StateViewObject V)) (m : ViewMap V)
      → Each P m
      → ((v : StateViewObject V) → f (get k m) ≡ some v → P k v)
      → Each P (update_if k f m).0
  Each-update_if k f m each p =
      Each-write k (kept (get k m) (f (get k m))) m _ (λ j. get-update_if k j f m) each
        (λ v. from_kept (f (get k m)) v (p v))
    where
      from_kept :
          (o : Option (StateViewObject V)) (v : StateViewObject V)
          → (o ≡ some v → P k v)
          → kept (get k m) o ≡ some v
          → P k v
      from_kept none v q e = each.at k v e
      from_kept (some w) v q e = q e

  pub Each-update :
      (k : NodeId) (v : StateViewObject V) (m : ViewMap V)
      → Each P m
      → P k v
      → Each P (update k v m).0
  Each-update k v m each p =
      Each-write k (if contains k m then some v else none) m _ (λ j. get-update k j v m) each
        (at_old (contains k m))
    where
      at_old : (b : Bool) (w : StateViewObject V) → (if b then some v else none) ≡ some w → P k w
      at_old true w e = subst (P k) (some_injective e) p
      at_old false w e = cc

  pub Each-insert_node :
      (k : NodeId) (v : StateViewObject V) (m : ViewMap V)
      → Each P m
      → P k v
      → Each P (insert_node k v m).0
  Each-insert_node k v m each p =
      Each-write k (if contains k m then get k m else some v) m _ (λ j. get-insert_node k j v m)
        each (at_new (contains k m))
    where
      at_new : (b : Bool) (w : StateViewObject V) → (if b then get k m else some v) ≡ some w → P k w
      at_new true w e = each.at k w e
      at_new false w e = subst (P k) (some_injective e) p

  pub Each-remove_node : (k : NodeId) (m : ViewMap V) → Each P m → Each P (remove_node k m).0
  Each-remove_node k m each = Each-write k none m _ (λ j. get-remove_node k j m) each (λ v e. cc)

-- A property that follows from another holds wherever that does.
pub Each-map {ℓ κ μ} :
    {V : Type ℓ} {P : NodeId → StateViewObject V → Type κ} {Q : NodeId → StateViewObject V → Type μ}
    {m : ViewMap V}
    → ((j : NodeId) (vo : StateViewObject V) → P j vo → Q j vo)
    → Each P m
    → Each Q m
Each-map f each = record { at = λ j vo e. f j vo (each.at j vo e) }

-- ===== src/Accumulator.antt =====
-- `DeltaAccumulator` of dstate/src/core/delta_accumulator.rs.
use dstate.Base.{ℕ, Bool, true, false, Option, none, some, List, [], ◌∷◌, ◌++◌, length}

pub record DeltaAccumulator {ℓ} (VD : Type ℓ) : Type ℓ where
  pub buffer : List VD

module _ {ℓ} {VD : Type ℓ} where
  abbrev pub new : DeltaAccumulator VD
  new = record { buffer = [] }

  unfoldable pub accumulate : VD → DeltaAccumulator VD → DeltaAccumulator VD
  accumulate delta a = record { buffer = a.buffer ++ delta ∷ [] }

  abbrev pub drain : List VD → Option (List VD)
  drain [] = none
  drain (d ∷ rest) = some (d ∷ rest)

  unfoldable pub flush : DeltaAccumulator VD → DeltaAccumulator VD × Option (List VD)
  flush a = (record { buffer = [] }, drain a.buffer)

  abbrev pub len : DeltaAccumulator VD → ℕ
  len a = length a.buffer

  abbrev pub is_empty : DeltaAccumulator VD → Bool
  is_empty a = elim a.buffer [ [] ↦ true | d ∷ rest ↦ false ]

-- ===== src/Laws/Registries.antt =====
-- Registration and look-up of shards in dstate/src/registry.rs, and `DeltaAccumulator`.
use mathlib.Core.List.{append-nil, append_assoc}
use dstate.Base.{◌≡◌, refl, sym, ap, ◌∙◌, Option, none, some, List, [], ◌∷◌, ◌++◌}
use dstate.HashMap
use dstate.Accumulator.{DeltaAccumulator, accumulate, flush, drain}

unfoldable pub accumulate_all : {VD : Type 0} → List VD → DeltaAccumulator VD → DeltaAccumulator VD
accumulate_all [] a = a
accumulate_all (d ∷ ds) a = accumulate_all ds (accumulate d a)

accumulate_all-buffer :
    {VD : Type 0} (ds : List VD) (a : DeltaAccumulator VD)
    → (accumulate_all ds a).buffer ≡ a.buffer ++ ds
unfolding accumulate_all accumulate
accumulate_all-buffer [] a = sym (append-nil a.buffer)
accumulate_all-buffer (d ∷ ds) a =
    accumulate_all-buffer ds (accumulate d a) ∙ append_assoc a.buffer (d ∷ []) ds

-- All of a list, if there is any of it.
abbrev pub whole : {VD : Type 0} → List VD → Option (List VD)
whole [] = none
whole ds = some ds

whole-drain : {VD : Type 0} (ds : List VD) → drain ds ≡ whole ds
whole-drain [] = refl
whole-drain (d ∷ ds) = refl

-- What is accumulated in an empty buffer comes out of a flush whole and in order, once; a flush of
-- nothing gives `none`.
pub flush-accumulate_all :
    {VD : Type 0} (ds : List VD) (a : DeltaAccumulator VD)
    → a.buffer ≡ []
    → let flushed = flush (accumulate_all ds a) in
      (flushed.1 ≡ whole ds) × ((flush flushed.0).1 ≡ none)
unfolding flush
flush-accumulate_all ds a empty =
    (ap drain (accumulate_all-buffer ds a ∙ ap (λ b. b ++ ds) empty) ∙ whole-drain ds, refl)

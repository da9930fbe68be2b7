-- ===== src/Laws/TwoPhase.antt =====
-- `prepare_mutation` and `commit_mutation` of dstate/src/core/shard_core.rs, beside `apply_mutation`.
use dstate.Base.{◌≡◌, true, false, none, some, arith, inc_u64}
use dstate.Types.Envelope.{Clock}
use dstate.Types.Generation
use dstate.Types.Generation.{Generation}
use dstate.Shard.State.{ShardCore}
use dstate.Shard.Mutation.{
  apply_mutation, apply_mutation_with_delta, prepare_mutation, commit_mutation,
  prepare_mutation_with_delta, commit_delta_mutation,
}

eq_self : (g : Generation) → Generation.eq g g ≡ true
unfolding Generation.eq
eq_self g = ground arith

module _ {S V : Type 0} where
  -- Preparing a mutation and committing it at once leaves the shard and gives the outcome of
  -- `apply_mutation`, and does not panic.
  pub commit-prepare :
      (clock : Clock) (f : S → S) (p : S → V) (s : ShardCore S V)
      → commit_mutation clock (prepare_mutation clock f p s) s ≡ some (apply_mutation clock f p s)
  unfolding commit_mutation prepare_mutation apply_mutation
  commit-prepare clock f p s = rw (eq_self s.state.generation)

  -- Preparing a mutation with a delta and committing it at once leaves the shard and gives the outcome
  -- of `apply_mutation_with_delta`, and does not panic.
  pub commit_delta-prepare :
      {DC VD : Type 0} (clock : Clock) (f : S → S × DC) (p : S → V) (q : DC → VD)
      (s : ShardCore S V)
      → commit_delta_mutation clock (prepare_mutation_with_delta clock f p q s) s
        ≡ some (apply_mutation_with_delta clock f p q s)
  unfolding commit_delta_mutation prepare_mutation_with_delta apply_mutation_with_delta
  commit_delta-prepare clock f p q s = rw (eq_self s.state.generation)

  -- A prepared mutation panics at its commit once another mutation has been applied in between.
  pub commit_after_mutation :
      (clock later : Clock) (f g : S → S) (p q : S → V) (s : ShardCore S V)
      → commit_mutation later (prepare_mutation clock f p s) (apply_mutation clock g q s).0 ≡ none
  unfolding commit_mutation prepare_mutation apply_mutation
  commit_after_mutation clock later f g p q s = rw (moved_on s.state.generation)
    where
      moved_on :
          (x : Generation)
          → Generation.eq x (record { incarnation = x.incarnation; age = inc_u64 x.age }) ≡ false
      moved_on x = unfold Generation.eq in ground arith

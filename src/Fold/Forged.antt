-- ===== src/Fold/Forged.antt =====
-- What `fold` does not check: that the proof it is given carries the verifier data that it was
-- verified against.
use succinctx.Prelude.{◌+◌, ◌≡◌, refl, ap, ◌∙◌, true, arith, ok}
use succinctx.Fold.Inner.{FoldDefinition, Plonky2, fold}
use succinctx.Fold.Steps.{
  AcceptsCyclicProof, IsComplete, ctx_equal_refl, accumulator_equal_refl, next_values,
  build_inner-next_values,
}

module _ {Ctx Element Accumulator Verifier Proof : Type 0}
    (definition : FoldDefinition Ctx Element Accumulator)
    (plonky2 : Plonky2 Ctx Element Accumulator Verifier Proof) where
  -- The proof system is complete for the inner circuit, and a proof verifies against its own verifier
  -- data, whichever they are, with index 0 and some accumulator as its output. Then there is a proof
  -- that `fold` accepts for the context and the initial accumulator which that proof claims, and
  -- that gives one step from the claimed output, which nothing has folded.
  pub fold_forged :
      (data' : Verifier) (accepts : AcceptsCyclicProof definition plonky2)
      (complete : IsComplete definition plonky2 data') (forged : Proof) (element : Element)
      (output : Accumulator)
      → let claimed = plonky2.public_values forged in
        plonky2.verify claimed.verifier_data forged ≡ true
        → claimed.index ≡ 0
        → definition.fold_step claimed.ctx element claimed.output 1 ≡ ok output
        → (final_proof : Proof) × (fold definition plonky2 data' claimed.ctx claimed.initial
              final_proof
            ≡ ok (1, output))
  unfolding fold next_values
  fold_forged data' accepts complete forged element output v zero_index step =
      let claimed = plonky2.public_values forged in
      let second : claimed.index + 1 ≡ 1 = omega arith in
      let (final_proof, verified, same) =
        complete (next_values definition plonky2 claimed element output) forged (
          build_inner-next_values definition plonky2 accepts forged element output v (omega arith)
            (ap (definition.fold_step claimed.ctx element claimed.output) second ∙ step)) in
      (
        final_proof,
        rw
            (
              verified,
              same,
              ctx_equal_refl definition plonky2 claimed.ctx,
              accumulator_equal_refl definition plonky2 claimed.initial,
              second,
            )
            refl,
      )

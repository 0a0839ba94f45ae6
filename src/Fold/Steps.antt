-- ===== src/Fold/Steps.antt =====
-- plonky2x/core/src/frontend/fold/mod.rs: public inputs with which the constraints of the inner
-- circuit hold.
use succinctx.Prelude.{◌+◌, ◌%◌, ◌^◌, ◌<◌, ◌≡◌, refl, true, false, arith, ◌==◌, lt→ltb, ok}
use succinctx.Fold.Inner.{CyclicPublicValues, FoldDefinition, Plonky2, inner_valid, build_inner}

module _ {Ctx Element Accumulator Verifier Proof : Type 0}
    (definition : FoldDefinition Ctx Element Accumulator)
    (plonky2 : Plonky2 Ctx Element Accumulator Verifier Proof) where
  -- The check of a cyclic proof accepts a proof that verifies and carries the same verifier data.
  abbrev pub AcceptsCyclicProof : Type 0
  AcceptsCyclicProof =
      (proof : Proof) (data' : Verifier)
      → plonky2.verify data' proof ≡ true
      → (plonky2.public_values proof).verifier_data ≡ data'
      → plonky2.conditionally_verify_cyclic_proof_or_dummy true proof data' ≡ true

  -- Constraints that hold have a proof.
  abbrev pub IsComplete : Verifier → Type 0
  IsComplete data' =
      (pis : CyclicPublicValues Ctx Element Accumulator Verifier) (inner : Proof)
      → build_inner definition plonky2 pis inner ≡ ok tt
      → (proof : Proof) × (plonky2.verify data' proof ≡ true) × (plonky2.public_values proof ≡ pis)

  pub ctx_equal_refl : (ctx : Ctx) → definition.ctx_equal ctx ctx ≡ true
  ctx_equal_refl ctx = (definition.ctx_equal_iff ctx ctx).1 refl

  pub accumulator_equal_refl : (acc : Accumulator) → definition.accumulator_equal acc acc ≡ true
  accumulator_equal_refl acc = (definition.accumulator_equal_iff acc acc).1 refl

  -- The public inputs of the step after a proof.
  unfoldable pub next_values :
      CyclicPublicValues Ctx Element Accumulator Verifier
      → Element
      → Accumulator
      → CyclicPublicValues Ctx Element Accumulator Verifier
  next_values inner element output = record inner {
    element = element;
    prev = inner.output;
    index = inner.index + 1;
    output = output;
  }

  pub build_inner-next_values :
      (accepts : AcceptsCyclicProof) (proof : Proof) (element : Element) (output : Accumulator)
      → let inner = plonky2.public_values proof in
        plonky2.verify inner.verifier_data proof ≡ true
        → inner.index + 1 < 2 ^ 32
        → definition.fold_step inner.ctx element inner.output (inner.index + 1) ≡ ok output
        → build_inner definition plonky2 (next_values inner element output) proof ≡ ok tt
  unfolding build_inner inner_valid next_values
  build_inner-next_values accepts proof element output v bound step =
      let inner = plonky2.public_values proof in
      let i = inner.index in
      let later : (i + 1 == 0) ≡ false = ground arith in
      let counted : ((i + 1) % 2 ^ 32 == i + 1) ≡ true = ground arith in
      rw
        (
          lt→ltb (i + 1) (2 ^ 32) bound,
          later,
          step,
          accumulator_equal_refl output,
          ctx_equal_refl inner.ctx,
          accumulator_equal_refl inner.initial,
          accumulator_equal_refl inner.output,
          lt→ltb (i + 1) (2 ^ 36) (omega arith),
          counted,
          accepts proof inner.verifier_data v refl,
        )
        refl

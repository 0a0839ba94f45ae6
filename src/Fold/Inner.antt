-- ===== src/Fold/Inner.antt =====
-- plonky2x/core/src/frontend/fold/mod.rs: the constraints of the inner circuit and of `fold`. A
-- variable is the value that it has in a satisfying assignment; `panic` stands for constraints that
-- fail.
use succinctx.Prelude.{
  ℕ, ◌+◌, ◌%◌, ◌^◌, ◌≡◌, ◌↔◌, Bool, true, not, ◌&&◌, ◌||◌, List, [], ◌∷◌, ltb, ◌==◌, if◌then◌else◌,
  Outcome, ok, ◌>>=◌, ◌>>◌, ensure,
}

-- The public inputs of an inner proof, in the order in which the circuit registers them.
pub record CyclicPublicValues (Ctx Element Accumulator Verifier : Type 0) : Type 0 where
  pub ctx : Ctx
  pub element : Element
  pub prev : Accumulator
  pub initial : Accumulator
  pub index : ℕ
  pub output : Accumulator
  pub verifier_data : Verifier

-- The builder's `is_equal` on contexts and accumulators, and the user's `fold_step`.
pub record FoldDefinition (Ctx Element Accumulator : Type 0) : Type 0 where
  pub ctx_equal : Ctx → Ctx → Bool
  pub accumulator_equal : Accumulator → Accumulator → Bool
  pub ctx_equal_iff : (a b : Ctx) → (ctx_equal a b ≡ true) ↔ (a ≡ b)
  pub accumulator_equal_iff : (a b : Accumulator) → (accumulator_equal a b ≡ true) ↔ (a ≡ b)
  pub fold_step : Ctx → Element → Accumulator → ℕ → Outcome Accumulator

-- plonky2's recursion: which proofs verify against which verifier data, the public inputs of a
-- proof, and the check of a proof within the circuit that the proof is for.
pub record Plonky2 (Ctx Element Accumulator Verifier Proof : Type 0) : Type 0 where
  pub public_values : Proof → CyclicPublicValues Ctx Element Accumulator Verifier
  pub verify : Verifier → Proof → Bool
  pub conditionally_verify_cyclic_proof_or_dummy : Bool → Proof → Verifier → Bool

module _ {Ctx Element Accumulator : Type 0}
    (definition : FoldDefinition Ctx Element Accumulator) where
  -- What a fold is: one step for each element, with the number of the element.
  unfoldable pub folds : Ctx → ℕ → Accumulator → List Element → Outcome Accumulator
  folds ctx i acc [] = ok acc
  folds ctx i acc (x ∷ xs) = do acc' ← definition.fold_step ctx x acc i; folds ctx (i + 1) acc' xs

module _ {Ctx Element Accumulator Verifier Proof : Type 0}
    (definition : FoldDefinition Ctx Element Accumulator)
    (plonky2 : Plonky2 Ctx Element Accumulator Verifier Proof) where
  -- What the circuit with these public inputs asks of the proof before it.
  unfoldable pub inner_valid :
      CyclicPublicValues Ctx Element Accumulator Verifier
      → CyclicPublicValues Ctx Element Accumulator Verifier
      → Bool
  inner_valid pis inner =
      ((definition.ctx_equal inner.ctx pis.ctx
          && definition.accumulator_equal inner.initial pis.initial)
        && definition.accumulator_equal inner.output pis.prev)
      && (inner.index + 1) % 2 ^ 32 == pis.index

  -- The addition of one to the number of the proof before it is a gate for several addends, with room
  -- for a carry of four bits.
  unfoldable pub build_inner :
      CyclicPublicValues Ctx Element Accumulator Verifier → Proof → Outcome (Unit {0})
  unfolding inner_valid
  build_inner pis inner_proof = do
    ensure (ltb pis.index (2 ^ 32))
    let should_dummy = pis.index == 0
    let prev_or_initial = if should_dummy then pis.initial else pis.prev
    next_acc ← definition.fold_step pis.ctx pis.element prev_or_initial pis.index
    ensure (definition.accumulator_equal next_acc pis.output)
    ensure (ltb ((plonky2.public_values inner_proof).index + 1) (2 ^ 36))
    ensure (inner_valid pis (plonky2.public_values inner_proof) || should_dummy)
    ensure (
        plonky2.conditionally_verify_cyclic_proof_or_dummy (not should_dummy) inner_proof
          pis.verifier_data)

  -- `fold` for the proof that the generator has set, against the verifier data of the inner circuit.
  unfoldable pub fold : Verifier → Ctx → Accumulator → Proof → Outcome (ℕ × Accumulator)
  fold final_verifier_data ctx initial final_proof = do
    ensure (plonky2.verify final_verifier_data final_proof)
    let inner = plonky2.public_values final_proof
    ensure (definition.ctx_equal inner.ctx ctx)
    ensure (definition.accumulator_equal inner.initial initial)
    ok (inner.index, inner.output)

-- ===== src/Fold/Generator.antt =====
-- plonky2x/core/src/frontend/fold/generator.rs: the loop that makes the proofs of a fold.
use succinctx.Prelude.{
  ℕ, zero, suc, ◌+◌, ◌^◌, ◌≡◌, true, Option, none, some, List, [], ◌∷◌, ltb, Outcome, ok, panic,
  stuck, ◌>>=◌, ◌>>◌, ensure,
}
use succinctx.Fold.Inner.{CyclicPublicValues, FoldDefinition, Plonky2, build_inner}
use succinctx.Fold.Steps.{}

-- What `prove_cycle` writes as the inputs of a proof.
pub record CycleInput (Ctx Element Accumulator Verifier : Type 0) : Type 0 where
  pub ctx : Ctx
  pub element : Element
  pub prev : Accumulator
  pub initial : Accumulator
  pub index : ℕ
  pub verifier_data : Verifier

-- plonky2's prover for the inner circuit, and its dummy for the proof before the first.
pub record Prover (Ctx Element Accumulator Verifier Proof : Type 0) : Type 0 where
  pub prove : CycleInput Ctx Element Accumulator Verifier → Proof → Outcome Proof
  pub cyclic_base_proof : Verifier → Proof

module _ {Ctx Element Accumulator Verifier Proof : Type 0}
    (definition : FoldDefinition Ctx Element Accumulator)
    (plonky2 : Plonky2 Ctx Element Accumulator Verifier Proof)
    (prover : Prover Ctx Element Accumulator Verifier Proof) where
  module _ (data' : Verifier) (ctx : Ctx) (initial : Accumulator)
      (next : ℕ → Accumulator → Option Element) where
    unfoldable pub previous_proof : Option Proof → Proof
    previous_proof none = prover.cyclic_base_proof data'
    previous_proof (some proof) = proof

    unfoldable pub prove_cycle : Accumulator → Element → ℕ → Option Proof → Outcome Proof
    unfolding previous_proof
    prove_cycle acc element index prev_result =
        prover.prove
          (record {
            ctx = ctx;
            element = element;
            prev = acc;
            initial = initial;
            index = index;
            verifier_data = data';
          })
          (previous_proof prev_result)

    unfoldable pub previous_output : Option Proof → Accumulator
    previous_output none = initial
    previous_output (some proof) = let output = plonky2.public_values proof in output.output

    unfoldable pub unwrap : Option Proof → Outcome Proof
    unwrap none = panic
    unwrap (some proof) = ok proof

    -- The loop of `run_once`; `next` is that of the user's definition for the context. `i += 1` may
    -- overflow.
    unfoldable pub run_loop : ℕ → ℕ → Option Proof → Outcome Proof
    unfolding prove_cycle previous_output unwrap
    run_loop zero i last_result = stuck
    run_loop (suc fuel) i last_result =
        let prev_acc = previous_output last_result in
        elim (next i prev_acc) [
          | none ↦ unwrap last_result
          | some element ↦ prove_cycle prev_acc element i last_result >>= λ proof.
              ensure (ltb (i + 1) (2 ^ 32)) >> run_loop fuel (i + 1) (some proof)
        ]

    unfoldable pub run_once : ℕ → Outcome Proof
    unfolding run_loop
    run_once fuel = run_loop fuel 0 none

    -- The elements from number `i` on, and the steps from `acc` over them to `out`.
    abbrev pub Runs : ℕ → Accumulator → List Element → Accumulator → Type 0
    Runs i acc [] out = (next i acc ≡ none) × (acc ≡ out)
    Runs i acc (x ∷ xs) out =
        (next i acc ≡ some x)
        × ((acc' : Accumulator) × ((definition.fold_step ctx x acc i ≡ ok acc')
              × Runs (i + 1) acc' xs out))

    -- The public inputs that an input and its output make.
    abbrev pub values :
        CycleInput Ctx Element Accumulator Verifier
        → Accumulator
        → CyclicPublicValues Ctx Element Accumulator Verifier
    values input output = record {
      ctx = input.ctx;
      element = input.element;
      prev = input.prev;
      initial = input.initial;
      index = input.index;
      output = output;
      verifier_data = input.verifier_data;
    }

    -- Constraints that hold are proved, with the output that they determine.
    abbrev pub Proves : Type 0
    Proves =
        (input : CycleInput Ctx Element Accumulator Verifier) (output : Accumulator) (inner : Proof)
        → let pis = values input output in
          build_inner definition plonky2 pis inner ≡ ok tt
          → (proof : Proof) × (prover.prove input inner ≡ ok proof)
            × (plonky2.verify data' proof ≡ true)
            × (plonky2.public_values proof ≡ pis)

    -- A proof of the fold so far.
    abbrev pub IsAt : Proof → ℕ → Accumulator → Type 0
    IsAt proof index output =
        let pis = plonky2.public_values proof in
        (plonky2.verify data' proof ≡ true)
        × (pis.ctx ≡ ctx)
        × (pis.initial ≡ initial)
        × (pis.verifier_data ≡ data')
        × (pis.index ≡ index)
        × (pis.output ≡ output)

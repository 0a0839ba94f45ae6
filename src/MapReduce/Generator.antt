-- ===== src/MapReduce/Generator.antt =====
-- plonky2x/core/src/frontend/mapreduce/generator.rs: how the proofs of a map-reduce are made. The
-- prover returns proofs, or identifiers that stand for them until they are fetched: a proof stands for
-- either. The context and the inputs are the values that `get` reads from the witness, or that the
-- generator holds, and what is written to the public inputs of a proof is given to the prover as it is:
-- a panic of `get` is left out. `MapReduceGenerator` and `MapReduceDynamicGenerator` differ in where the
-- inputs come from.
use succinctx.Prelude.{
  index, ℕ, zero, suc, ◌+◌, ◌*◌, ◌/◌, ◌^◌, not, List, [], ◌∷◌, map, ◌==◌, length, Outcome, ok,
  ◌>>=◌, ◌>>◌, ensure,
}
use succinctx.MapReduce.Circuits.{CircuitBuild, MapReduce}
use succinctx.MapReduce.Commitment.{chunk_loop, log2_ceil}

-- The inputs of the reduce proofs of a layer from number `j` on, `left` of them.
unfoldable pub reduce_inputs_loop {ℓ} : {A : Type ℓ} → ℕ → ℕ → List A → Outcome (List (A × A))
reduce_inputs_loop zero j proofs = ok []
reduce_inputs_loop (suc left) j proofs = do
  left_proof ← index proofs (j * 2)
  right_proof ← index proofs (j * 2 + 1)
  inputs ← reduce_inputs_loop left (j + 1) proofs
  ok ((left_proof, right_proof) ∷ inputs)

module _ {F : Type 0} (program : MapReduce F) (Proof : Type 0) where
  open program use {Ctx, input, batch}

  -- `batch_prove` for the map circuit and for a reduce circuit.
  pub record Prover : Type 0 where
    pub prove_maps : List (Ctx × List input.Value) → Outcome (List Proof)
    pub prove_reduces : CircuitBuild → List (Proof × Proof) → Outcome (List Proof)

  module _ (prover : Prover) where
    -- The reduce layers from number `i` on, `left` of them, for `n` groups.
    unfoldable pub reduce_loop : ℕ → ℕ → ℕ → List CircuitBuild → List Proof → Outcome (List Proof)
    unfolding reduce_inputs_loop
    reduce_loop zero i n reduce_circuits outputs = ok outputs
    reduce_loop (suc left) i n reduce_circuits outputs = do
      inputs ← reduce_inputs_loop (n / 2 ^ (i + 1)) 0 outputs
      circuit ← index reduce_circuits i
      outputs' ← prover.prove_reduces circuit inputs
      reduce_loop left (i + 1) n reduce_circuits outputs'

    unfoldable pub run_once : Ctx → List input.Value → List CircuitBuild → Outcome Proof
    unfolding reduce_loop
    run_once ctx inputs reduce_circuits = do
      ensure (not (batch == 0))
      let n = length inputs / batch
      outputs ← prover.prove_maps (map (λ group. (ctx, group)) (chunk_loop batch n 0 inputs))
      proofs ← reduce_loop (log2_ceil n) 0 n reduce_circuits outputs
      index proofs 0

-- ===== src/MapReduce/Circuits.antt =====
-- plonky2x/core/src/frontend/mapreduce/mod.rs: the circuits of a map-reduce and what the outer
-- circuit checks. A variable is the value that it has in a satisfying assignment; `panic` stands for
-- an assertion that fails while a circuit is built, and for constraints that fail.
use succinctx.Prelude.{
  ℕ, zero, suc, ◌/◌, ◌%◌, Bool, not, List, [], ◌∷◌, ◌==◌, length, Outcome, ok, panic, ◌>>=◌, ◌>>◌,
  ensure,
}
use succinctx.Vars.Circuit.{CircuitVariable}
use succinctx.MapReduce.Commitment.{
  leaf_hash, poseidon_hash_pair, mapreduce_merkle_tree_root, is_power_of_two, log2_ceil,
}

pub record MapReduceOutput (F Ctx Output : Type 0) : Type 0 where
  pub ctx : Ctx
  pub output : Output
  pub acc : List F

-- The map circuit, or a reduce circuit over two proofs for one circuit.
pub data CircuitBuild : Type 0 where
  map_circuit : CircuitBuild
  reduce_circuit : CircuitBuild → CircuitBuild

-- The types of the user's variables, the closures on their values, and the equality that plonky2
-- connects by.
pub record MapReduce (F : Type 0) : Type 1 where
  pub Ctx : Type 0
  pub Output : Type 0
  pub input : CircuitVariable F
  pub batch : ℕ
  pub ctx_equal : Ctx → Ctx → Bool
  pub hash_equal : List F → List F → Bool
  pub map_fn : Ctx → List input.Value → Outcome Output
  pub reduce_fn : Ctx → Output → Output → Outcome Output

module _ {F : Type 0} (hash_n_to_hash_no_pad : List F → List F) (program : MapReduce F) where
  open program use {Ctx, Output, input, batch}

  -- What the map circuit writes for what it reads.
  unfoldable pub build_map : Ctx → List input.Value → Outcome (MapReduceOutput F Ctx Output)
  unfolding leaf_hash
  build_map ctx inputs = do
    output ← program.map_fn ctx inputs
    let acc = leaf_hash hash_n_to_hash_no_pad input inputs
    ok (record { ctx = ctx; output = output; acc = acc })

  -- plonky2's proofs: which verify for a circuit, and `read_end_from_pis`, what a proof's public
  -- inputs end with.
  module _ (Proof : Type 0) (verify_proof : CircuitBuild → Proof → Bool)
      (read_end_from_pis : Proof → MapReduceOutput F Ctx Output) where
    unfoldable pub build_reduce :
        CircuitBuild → Proof → Proof → Outcome (MapReduceOutput F Ctx Output)
    unfolding poseidon_hash_pair
    build_reduce child_circuit proof_left proof_right = do
      ensure (verify_proof child_circuit proof_left)
      ensure (verify_proof child_circuit proof_right)
      let input_left = read_end_from_pis proof_left
      let input_right = read_end_from_pis proof_right
      ensure (program.ctx_equal input_left.ctx input_right.ctx)
      output ← program.reduce_fn input_left.ctx input_left.output input_right.output
      let acc = poseidon_hash_pair hash_n_to_hash_no_pad input_left.acc input_right.acc
      ok (record { ctx = input_left.ctx; output = output; acc = acc })

    -- The reduce circuits over a child, one for each layer that is left.
    unfoldable pub build_layers : ℕ → CircuitBuild → List CircuitBuild
    build_layers zero child_circuit = []
    build_layers (suc left) child_circuit =
        let circuit = reduce_circuit child_circuit in circuit ∷ build_layers left circuit

    -- `reduce_circuits[reduce_circuits.len() - 1]`.
    unfoldable pub final_circuit : List CircuitBuild → Outcome CircuitBuild
    final_circuit [] = panic
    final_circuit (c ∷ []) = ok c
    final_circuit (c ∷ d ∷ cs) = final_circuit (d ∷ cs)

    -- `mapreduce` for the proof that its generator has set; `mapreduce_dynamic` checks the same.
    unfoldable pub mapreduce : Ctx → List input.Value → Proof → Outcome Output
    unfolding build_layers final_circuit mapreduce_merkle_tree_root
    mapreduce ctx inputs final_proof = do
      ensure (not (batch == 0))
      ensure (length inputs % batch == 0)
      ensure (is_power_of_two (length inputs / batch))
      expected_acc ← mapreduce_merkle_tree_root hash_n_to_hash_no_pad input batch inputs
      let reduce_circuits = build_layers (log2_ceil (length inputs / batch)) map_circuit
      circuit ← final_circuit reduce_circuits
      ensure (verify_proof circuit final_proof)
      let output = read_end_from_pis final_proof
      ensure (program.hash_equal output.acc expected_acc)
      ensure (program.ctx_equal output.ctx ctx)
      ok output.output

-- ===== src/MapReduce/Loop.antt =====
-- The loop of MapReduce/Generator.antt ends with a proof that `mapreduce` accepts.
use mathlib.Core.Path.{subst}
use native.Mathlib.Nat.{two-pow-succ, one-le-pow, mul-div_cancel_left}
use succinctx.Prelude.{
  index, ensure-ok, >>=-ok, ℕ, zero, suc, ◌+◌, ◌/◌, ◌%◌, ◌^◌, ◌≤◌, ◌<◌, ◌≡◌, refl, sym, ap, ap₂,
  ◌∙◌, Bool, true, false, List, [], ◌∷◌, map, arith, ◌==◌, length, length-map, ok, >>=-eq-ok,
}
use succinctx.Vars.Layout.{All}
use succinctx.MapReduce.Commitment.{
  leaf_hash, chunk_loop, chunks, log2_ceil, is_power_of_two, mapreduce_merkle_tree_root,
}
use succinctx.MapReduce.Circuits.{
  MapReduceOutput, CircuitBuild, map_circuit, reduce_circuit, MapReduce, build_map, build_reduce,
  build_layers, final_circuit, mapreduce,
}
use succinctx.MapReduce.Layers.{tree, tree-pairs}
use succinctx.MapReduce.Binding.{join_hashes, layers_loop-tree}
use succinctx.MapReduce.Powers.{log2_ceil-pow, length-chunk_loop, is_power_of_two-pow, two-pow-add}
use succinctx.MapReduce.Generator.{reduce_inputs_loop, Prover, reduce_loop, run_once}
use succinctx.MapReduce.Sound.{
  map_all, length-map_all, circuits, IsLawfulProgram, map_reduce, final_circuit-build_layers,
}
use succinctx.MapReduce.Complete.{
  adjacent, reduce_inputs_loop-adjacent, join_outputs, claims, length-claims, tree-claims,
  map_all-claims, Verifies, build_reduces,
}

module _ {F : Type 0} (hash : List F → List F) (program : MapReduce F)
    (lawful : IsLawfulProgram program) (Proof : Type 0) (verify_proof : CircuitBuild → Proof → Bool)
    (read_end_from_pis : Proof → MapReduceOutput F program.Ctx program.Output)
    (prover : Prover program Proof) where
  open program use {Ctx, Output, input, batch}

  -- Proofs of a circuit that say what the constraints make.
  abbrev pub Proved : CircuitBuild → List Proof → List (MapReduceOutput F Ctx Output) → Type 0
  Proved circuit proofs outs =
      All (Verifies hash program lawful Proof verify_proof read_end_from_pis circuit) proofs
      × (map read_end_from_pis proofs ≡ outs)

  -- The prover proves what holds.
  abbrev pub Proves : Type 0
  Proves =
      ((inputs : List (Ctx × List input.Value)) (outs : List (MapReduceOutput F Ctx Output))
        → map_all (λ (p : Ctx × List input.Value). build_map hash program p.0 p.1) inputs ≡ ok outs
        → (proofs : List Proof) × (prover.prove_maps inputs ≡ ok proofs)
          × Proved map_circuit proofs outs)
      × ((child : CircuitBuild) (inputs : List (Proof × Proof))
            (outs : List (MapReduceOutput F Ctx Output))
          → map_all
              (λ (p : Proof × Proof).
                build_reduce hash program Proof verify_proof read_end_from_pis child p.0 p.1)
              inputs
            ≡ ok outs
          → (proofs : List Proof) × (prover.prove_reduces (reduce_circuit child) inputs ≡ ok proofs)
            × Proved (reduce_circuit child) proofs outs)

  abbrev pub layers : ℕ → ℕ → List CircuitBuild
  layers d k = build_layers hash program Proof verify_proof read_end_from_pis d (circuits k)

  index-build_layers : (d k i : ℕ) → i < d → index (layers d k) i ≡ ok (circuits (suc (k + i)))
  unfolding build_layers circuits
  index-build_layers zero k i h = absurd (omega arith)
  index-build_layers (suc d) k zero h =
      let same : k ≡ k + 0 = omega arith in ap (λ n. ok (reduce_circuit (circuits n))) same
  index-build_layers (suc d) k (suc i) h =
      let same : suc (suc k + i) ≡ suc (k + suc i) = omega arith in
      index-build_layers d (suc k) i (omega arith) ∙ ap (λ n. ok (circuits n)) same

  halves : (i left : ℕ) → 2 ^ (i + suc left) / 2 ^ (i + 1) ≡ 2 ^ left
  halves i left =
      let sum : i + suc left ≡ i + 1 + left = omega arith in
      ap (λ n. 2 ^ n / 2 ^ (i + 1)) sum
      ∙ ap (λ n. n / 2 ^ (i + 1)) (two-pow-add (i + 1) left)
      ∙ mul-div_cancel_left (2 ^ left) (one-le-pow (i + 1) 2 (omega arith))

  single :
      (proofs : List Proof) (r : MapReduceOutput F Ctx Output)
      → tree (join_outputs hash program lawful) 0 (map read_end_from_pis proofs) ≡ ok r
      → (proof : Proof) × (proofs ≡ proof ∷ []) × (read_end_from_pis proof ≡ r)
  unfolding tree
  single [] r e = absurd (cc e)
  single (p ∷ []) r e = (p, refl, cc e)
  single (p ∷ q ∷ proofs) r e = absurd (cc e)

  module _ (proves : Proves) where
    reduce_loop-tree :
        (left i : ℕ) (proofs : List Proof) (r : MapReduceOutput F Ctx Output)
        → length proofs ≡ 2 ^ left
        → All
            (Verifies hash program lawful Proof verify_proof read_end_from_pis (circuits i))
            proofs
        → tree (join_outputs hash program lawful) left (map read_end_from_pis proofs) ≡ ok r
        → (proof : Proof) × (reduce_loop program Proof prover left i
              (2 ^ (i + left))
              (layers (i + left) 0)
              proofs
            ≡ ok (proof ∷ []))
          × (verify_proof (circuits (i + left)) proof ≡ true)
          × (read_end_from_pis proof ≡ r)
    unfolding reduce_loop circuits
    reduce_loop-tree zero i proofs r l h e =
        let (proof, is, same) = single proofs r e in
        let sum : i ≡ i + 0 = omega arith in
        let first = (rw is at h) in
        (proof, ap ok is, ap (λ n. verify_proof (circuits n) proof) (sym sum) ∙ first.0, same)
    reduce_loop-tree (suc left) i proofs r l h e =
        let outs = map read_end_from_pis proofs in
        let size = length-map proofs read_end_from_pis in
        let (ws, p, t, k) = tree-pairs (join_outputs hash program lawful) left outs (size ∙ l) e in
        let built =
          build_reduces hash program lawful Proof verify_proof read_end_from_pis (circuits i) proofs
            ws h p in
        let (proofs', made, proved) = proves.1 (circuits i) (adjacent proofs) ws built in
        let inputs : reduce_inputs_loop (2 ^ left) 0 proofs ≡ ok (adjacent proofs) =
          reduce_inputs_loop-adjacent (2 ^ left) 0 proofs proofs refl
            (omega (arith, two-pow-succ left)) in
        let circuit = index-build_layers (i + suc left) 0 i (omega arith) in
        let here : index (layers (i + suc left) 0) i ≡ ok (reduce_circuit (circuits i)) =
          let start : 0 + i ≡ i = omega arith in
          circuit ∙ ap (λ n. ok (reduce_circuit (circuits n))) start in
        let up : suc i ≡ i + 1 = omega arith in
        let verified =
          subst
            (λ n.
              All (Verifies hash program lawful Proof verify_proof read_end_from_pis (circuits n))
                proofs')
            up proved.0 in
        let sum : i + 1 + left ≡ i + suc left = omega arith in
        let (proof, rest, v, same) =
          reduce_loop-tree left (i + 1) proofs' r
            (sym (length-map proofs' read_end_from_pis) ∙ ap length proved.1 ∙ k) verified
            (ap (tree (join_outputs hash program lawful) left) proved.1 ∙ t) in
        (proof, rw (halves i left, inputs, here, made) (rw sum at rest), rw sum at v, same)

    -- The commitment to inputs that fall into a power of two of groups.
    commitment-tree :
        (d : ℕ) (inputs : List input.Value)
        → d ≤ 64
        → 0 < batch
        → length inputs % batch ≡ 0
        → length inputs / batch ≡ 2 ^ d
        → let leafs =
            map (leaf_hash hash input) (chunk_loop batch (length inputs / batch) 0 inputs) in
          (root : List F) × (mapreduce_merkle_tree_root hash input batch inputs ≡ ok root)
          × (tree (join_hashes hash) d leafs ≡ ok root)
    unfolding mapreduce_merkle_tree_root chunks
    commitment-tree d inputs h b whole count =
        let groups = chunk_loop batch (length inputs / batch) 0 inputs in
        let leafs = map (leaf_hash hash input) groups in
        let size : length leafs ≡ 2 ^ d =
          length-map groups (leaf_hash hash input)
          ∙ length-chunk_loop batch (length inputs / batch) 0 inputs
          ∙ count in
        let (root, e, t) = layers_loop-tree hash 64 d leafs h size in
        let some_batch : (batch == 0) ≡ false = ground arith in
        let exact : (length inputs % batch == 0) ≡ true = ground arith in
        let power : is_power_of_two (length leafs) ≡ true =
          ap is_power_of_two size ∙ is_power_of_two-pow d h in
        (root, rw (some_batch, exact, power) e, t)

    run_once-ok :
        (d : ℕ) (ctx : Ctx) (inputs : List input.Value) (proofs : List Proof) (proof : Proof)
        → d ≤ 64
        → 0 < batch
        → length inputs / batch ≡ 2 ^ d
        → prover.prove_maps
            (map (λ g. (ctx, g)) (chunk_loop batch (length inputs / batch) 0 inputs))
          ≡ ok proofs
        → reduce_loop program Proof prover d 0 (2 ^ d) (layers d 0) proofs ≡ ok (proof ∷ [])
        → run_once program Proof prover ctx inputs (layers d 0) ≡ ok proof
    unfolding run_once
    run_once-ok d ctx inputs proofs proof h b count made looped =
        let n = length inputs / batch in
        let depth : log2_ceil n ≡ d = ap log2_ceil count ∙ log2_ceil-pow d h in
        let same =
          ap₂ (λ k m. reduce_loop program Proof prover k 0 m (layers d 0) proofs) depth count in
        ensure-ok _ _ (ground arith) (>>=-ok _ _ made (>>=-ok _ _ (same ∙ looped) refl))

    mapreduce-ok :
        (d : ℕ) (ctx : Ctx) (inputs : List input.Value) (root : List F) (proof : Proof)
        (output : Output)
        → suc d ≤ 64
        → 0 < batch
        → length inputs % batch ≡ 0
        → length inputs / batch ≡ 2 ^ suc d
        → mapreduce_merkle_tree_root hash input batch inputs ≡ ok root
        → verify_proof (circuits (suc d)) proof ≡ true
        → read_end_from_pis proof ≡ record { ctx = ctx; output = output; acc = root }
        → mapreduce hash program Proof verify_proof read_end_from_pis ctx inputs proof ≡ ok output
    unfolding mapreduce circuits
    mapreduce-ok d ctx inputs root proof output h b whole count committed v same =
        let pis = read_end_from_pis proof in
        let n = length inputs / batch in
        let depth : log2_ceil n ≡ suc d = ap log2_ceil count ∙ log2_ceil-pow (suc d) h in
        let final = final_circuit hash program Proof verify_proof read_end_from_pis in
        let start : suc d + 0 ≡ suc d = omega arith in
        let last : final (layers (log2_ceil n) 0) ≡ ok (circuits (suc d)) =
          ap (λ k. final (layers k 0)) depth
          ∙ final_circuit-build_layers hash program lawful Proof verify_proof read_end_from_pis d 0
          ∙ ap (λ k. ok (circuits k)) start in
        let acc : pis.acc ≡ root = ap (λ (o : MapReduceOutput F Ctx Output). o.acc) same in
        let context : pis.ctx ≡ ctx = ap (λ (o : MapReduceOutput F Ctx Output). o.ctx) same in
        ensure-ok _ _ (ground arith) (
          ensure-ok _ _ (ground arith) (
            ensure-ok _ _ (ap is_power_of_two count ∙ is_power_of_two-pow (suc d) h) (
              >>=-ok _ _ committed (
                >>=-ok _ _ last (
                  ensure-ok _ _ v (
                    ensure-ok _ _ ((lawful.hash_equal_iff pis.acc root).1 acc) (
                      ensure-ok _ _ ((lawful.ctx_equal_iff pis.ctx ctx).1 context)
                        (ap (λ (o : MapReduceOutput F Ctx Output). ok o.output) same))))))))

    -- The prover proves what holds. If the number of the inputs is a positive power of two of groups,
    -- and the map and the reduction over a full tree have the value `output`, then the generator
    -- makes a proof, and `mapreduce` accepts it and returns `output`.
    pub mapreduce-run_once :
        (d : ℕ) (ctx : Ctx) (inputs : List input.Value) (output : Output)
        → suc d ≤ 64
        → 0 < batch
        → length inputs % batch ≡ 0
        → length inputs / batch ≡ 2 ^ suc d
        → map_reduce hash program ctx (suc d) (chunk_loop batch (length inputs / batch) 0 inputs)
          ≡ ok output
        → (proof : Proof) × (run_once program Proof prover ctx inputs (layers (suc d) 0) ≡ ok proof)
          × (mapreduce hash program Proof verify_proof read_end_from_pis ctx inputs proof
              ≡ ok output)
    unfolding map_reduce circuits
    mapreduce-run_once d ctx inputs output h b whole count e =
        let n = length inputs / batch in
        let groups = chunk_loop batch n 0 inputs in
        let (outs, mapped, reduced) = >>=-eq-ok (map_all (program.map_fn ctx) groups) _ e in
        let (root, committed, t) = commitment-tree (suc d) inputs h b whole count in
        let outs' = claims hash program lawful ctx groups outs in
        let (proofs, made, proved) =
          proves.0 (map (λ g. (ctx, g)) groups) outs'
            (map_all-claims hash program lawful ctx groups outs mapped) in
        let counted = length-chunk_loop batch n 0 inputs ∙ count in
        let size : length proofs ≡ 2 ^ suc d =
          sym (length-map proofs read_end_from_pis)
          ∙ ap length proved.1
          ∙ length-claims hash program lawful ctx groups outs
              (length-map_all (program.map_fn ctx) groups mapped)
          ∙ counted in
        let result : MapReduceOutput F Ctx Output = record {
          ctx = ctx;
          output = output;
          acc = root;
        } in
        let whole_tree =
          ap (tree (join_outputs hash program lawful) (suc d)) proved.1
          ∙ tree-claims hash program lawful (suc d) ctx groups outs reduced t in
        let (proof, made', v, same) =
          reduce_loop-tree (suc d) 0 proofs result size proved.0 whole_tree in
        let start : 0 + suc d ≡ suc d = omega arith in
        (
          proof,
          run_once-ok (suc d) ctx inputs proofs proof h b count made (rw start at made'),
          mapreduce-ok d ctx inputs root proof output h b whole count committed
              (ap (λ k. verify_proof (circuits k) proof) (sym start) ∙ v) same,
        )

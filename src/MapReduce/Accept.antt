-- ===== src/MapReduce/Accept.antt =====
-- What `mapreduce` accepts, and for which inputs it panics.
use native.Mathlib.Nat.{mod_self, div_self}
use succinctx.Prelude.{
  ℕ, ◌/◌, ◌%◌, ◌^◌, ◌<◌, ◌≡◌, refl, sym, ap, ◌∙◌, ◌⊎◌, inl, inr, Bool, true, false, not, List, map,
  arith, ◌==◌, length, length-map, ok, panic, >>=-eq-ok, ensure-eq-ok,
}
use succinctx.Vars.Layout.{All}
use succinctx.MapReduce.Commitment.{
  chunks, layers_loop, leaf_hash, mapreduce_merkle_tree_root, is_power_of_two, log2_ceil,
  chunk_loop,
}
use succinctx.MapReduce.Circuits.{
  MapReduceOutput, CircuitBuild, map_circuit, MapReduce, build_layers, final_circuit, mapreduce,
}
use succinctx.MapReduce.Layers.{tree}
use succinctx.MapReduce.Powers.{log2_ceil-pow, length-chunk_loop}
use succinctx.MapReduce.Binding.{Collision, join_hashes, tree_binds}
use succinctx.MapReduce.Groups.{
  IsGroup, chunk_loop-IsGroup, mapreduce_merkle_tree_root-tree, leaf_hash-IsHash, leaf_hash_binds,
}
use succinctx.MapReduce.Sound.{
  map_all, circuits, IsLawfulProgram, map_reduce, IsSound, verified-Stands, final_circuit-circuits,
}

module _ {F : Type 0} (hash : List F → List F) (program : MapReduce F)
    (lawful : IsLawfulProgram program) (Proof : Type 0) (verify_proof : CircuitBuild → Proof → Bool)
    (read_end_from_pis : Proof → MapReduceOutput F program.Ctx program.Output) where
  open program use {Ctx, Output, input, batch}
  open lawful use {input_lawful}

  -- For a positive size of the groups and the inputs of a single group there is no reduce circuit, and
  -- the call panics, whatever the proof and the proof system.
  pub mapreduce_single :
      (ctx : Ctx) (inputs : List input.Value) (final_proof : Proof)
      → 0 < batch
      → length inputs ≡ batch
      → mapreduce hash program Proof verify_proof read_end_from_pis ctx inputs final_proof ≡ panic
  unfolding mapreduce chunks layers_loop is_power_of_two log2_ceil
  mapreduce_single ctx inputs final_proof positive l =
      let some_batch : (batch == 0) ≡ false = ground arith in
      let one : length inputs / batch ≡ 1 = ap (λ k. k / batch) l ∙ div_self positive in
      let none_over : (length inputs % batch == 0) ≡ true =
        ap (λ k. k % batch == 0) l ∙ ap (λ k. k == 0) (mod_self batch) in
      rw (some_batch, none_over, one) refl

  module _ (sound : IsSound hash program lawful Proof verify_proof read_end_from_pis)
      (discrete : Discrete (List F)) (length-hash : (xs : List F) → length (hash xs) ≡ 4) where
    -- A proof that verifies, with the commitment to the inputs, in the context.
    output-map_reduce :
        (d : ℕ) (ctx : Ctx) (inputs : List input.Value) (root : List F) (proof : Proof)
        → let groups = chunk_loop batch (length inputs / batch) 0 inputs in
          let pis = read_end_from_pis proof in
          length groups ≡ 2 ^ d
          → All (IsGroup input_lawful.IsValue batch) groups
          → tree (join_hashes hash) d (map (leaf_hash hash input) groups) ≡ ok root
          → verify_proof (circuits d) proof ≡ true
          → pis.acc ≡ root
          → pis.ctx ≡ ctx
          → (map_reduce hash program ctx d groups ≡ ok pis.output) ⊎ Collision hash
    unfolding map_reduce
    output-map_reduce d ctx inputs root proof l valid r v a c =
        let groups = chunk_loop batch (length inputs / batch) 0 inputs in
        let leafs = map (leaf_hash hash input) groups in
        let (gs, os, n, g, m, t, r') =
          verified-Stands hash program lawful Proof verify_proof read_end_from_pis sound d proof
            v in
        let leafs' = map (leaf_hash hash input) gs in
        elim (tree_binds hash discrete length-hash d leafs' leafs
          (length-map gs (leaf_hash hash input) ∙ n) (length-map groups (leaf_hash hash input) ∙ l)
          (leaf_hash-IsHash hash input input_lawful discrete length-hash gs)
          (leaf_hash-IsHash hash input input_lawful discrete length-hash groups) (r' ∙ ap ok a) r) [
            | inr x ↦ inr x
            | inl same ↦
                elim (leaf_hash_binds hash input input_lawful discrete length-hash batch gs groups g
                  valid same) [
                    | inr x ↦ inr x
                    | inl is ↦
                        let mapped : map_all (program.map_fn ctx) groups ≡ ok os =
                          rw (is, c) at m in
                        inl (rw mapped (rw c at t))
                  ]
          ]

    -- The proof system is sound for the map circuit and the reduce circuits, and hashes have four
    -- elements. If `mapreduce` accepts a proof for lawful inputs, then the inputs fall into a
    -- power of two of groups, and the output is the reduction, over a full tree, of the map of
    -- each group in the context; or there are two different inputs of one length with the same
    -- hash, which are exhibited.
    pub mapreduce_sound :
        (ctx : Ctx) (inputs : List input.Value) (final_proof : Proof) (output : Output)
        → All input_lawful.IsValue inputs
        → mapreduce hash program Proof verify_proof read_end_from_pis ctx inputs final_proof
          ≡ ok output
        → let groups = chunk_loop batch (length inputs / batch) 0 inputs in
          ((d : ℕ) × (length groups ≡ 2 ^ d) × (map_reduce hash program ctx d groups ≡ ok output))
          ⊎ Collision hash
    unfolding mapreduce
    mapreduce_sound ctx inputs final_proof output valid e =
        let n = length inputs / batch in
        let groups = chunk_loop batch n 0 inputs in
        let pis = read_end_from_pis final_proof in
        let (b, e1) = ensure-eq-ok (not (batch == 0)) _ e in
        let (whole, e2) = ensure-eq-ok (length inputs % batch == 0) _ e1 in
        let (power, e3) = ensure-eq-ok (is_power_of_two n) _ e2 in
        let (root, committed, e4) =
          >>=-eq-ok (mapreduce_merkle_tree_root hash input batch inputs) _ e3 in
        let (circuit, last, e5) =
          >>=-eq-ok
            (final_circuit hash program Proof verify_proof read_end_from_pis (
              build_layers hash program Proof verify_proof read_end_from_pis (log2_ceil n)
                map_circuit))
            _ e4 in
        let (verified, e6) = ensure-eq-ok (verify_proof circuit final_proof) _ e5 in
        let (acc, e7) = ensure-eq-ok (program.hash_equal pis.acc root) _ e6 in
        let (context, e8) = ensure-eq-ok (program.ctx_equal pis.ctx ctx) _ e7 in
        let given : pis.output ≡ output = cc e8 in
        let (d, h, l, r) = mapreduce_merkle_tree_root-tree hash input batch inputs committed in
        let count : n ≡ 2 ^ d = sym (length-chunk_loop batch n 0 inputs) ∙ l in
        let depth : log2_ceil n ≡ d = ap log2_ceil count ∙ log2_ceil-pow d h in
        let built =
          final_circuit-circuits hash program lawful Proof verify_proof read_end_from_pis d circuit
            (rw depth at last) in
        let members : All (IsGroup input_lawful.IsValue batch) groups =
          chunk_loop-IsGroup input_lawful.IsValue batch n 0 inputs (ground arith) valid in
        elim (output-map_reduce d ctx inputs root final_proof l members r (rw built at verified)
          ((lawful.hash_equal_iff pis.acc root).0 acc)
          ((lawful.ctx_equal_iff pis.ctx ctx).0 context)) [
            | inr x ↦ inr x
            | inl result ↦ inl (d, l, result ∙ ap ok given)
          ]

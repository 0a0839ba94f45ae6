-- ===== src/Gates/ComparisonPacked.antt =====
-- The packed evaluation of `ComparisonGate`.
use succinctx.Prelude.{ℕ, ◌+◌, ◌^◌, ◌≡◌, List, [], ◌∷◌, ◌++◌, map}
use succinctx.Gates.Field.{Field}
use succinctx.Gates.AddMany.{collect}
use succinctx.Gates.RangeCheck.{Reduce}
use succinctx.Gates.Comparison.{
  ComparisonGate, chunk_bits, chunk_loop, eval_unfiltered, wire_first_input, wire_second_input,
  wire_result_bool, wire_most_significant_diff, wire_first_chunk_val, wire_second_chunk_val,
  wire_most_significant_diff_bit,
}

module _ (f : Field) (gate : ComparisonGate) (local_wires : ℕ → f.F) where
  open f use {F, zero_f, one_f, add, sub, mul, from_canonical}

  module _ (r : Reduce f) (ceil_div_usize : ℕ → ℕ → ℕ) where
    unfoldable pub eval_unfiltered_base_packed : List F
    eval_unfiltered_base_packed =
        let first_input = local_wires wire_first_input in
        let second_input = local_wires wire_second_input in
        let chunk_size = 2 ^ chunk_bits ceil_div_usize gate in
        let first_chunks =
          collect (λ i. local_wires (wire_first_chunk_val gate i)) gate.num_chunks 0 in
        let second_chunks =
          collect (λ i. local_wires (wire_second_chunk_val gate i)) gate.num_chunks 0 in
        let first_chunks_combined = r.reduce_with_powers first_chunks (from_canonical chunk_size) in
        let second_chunks_combined =
          r.reduce_with_powers second_chunks (from_canonical chunk_size) in
        let (constraints, most_significant_diff_so_far) =
          chunk_loop f gate local_wires chunk_size gate.num_chunks 0 zero_f in
        let most_significant_diff = local_wires wire_most_significant_diff in
        let diff_bit = λ (i : ℕ). local_wires (wire_most_significant_diff_bit gate i) in
        let most_significant_diff_bits = collect diff_bit (chunk_bits ceil_div_usize gate + 1) 0 in
        let bits_combined = r.reduce_with_powers most_significant_diff_bits (from_canonical 2) in
        let two_n = from_canonical chunk_size in
        let result_bool = local_wires wire_result_bool in
        sub first_chunks_combined first_input
        ∷ sub second_chunks_combined second_input
        ∷ (constraints
            ++ (sub most_significant_diff most_significant_diff_so_far
                ∷ (map (λ bit. mul bit (sub one_f bit)) most_significant_diff_bits
                    ++ (sub (add most_significant_diff two_n) bits_combined
                        ∷ sub result_bool (diff_bit (chunk_bits ceil_div_usize gate))
                        ∷ []))))

    pub eval_unfiltered_base_packed_lem :
        eval_unfiltered_base_packed ≡ eval_unfiltered f gate local_wires r ceil_div_usize
    unfolding eval_unfiltered_base_packed eval_unfiltered
    eval_unfiltered_base_packed_lem = rw (
        f.add_comm (local_wires wire_most_significant_diff)
          (from_canonical (2 ^ chunk_bits ceil_div_usize gate)))

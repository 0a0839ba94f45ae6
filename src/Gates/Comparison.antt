-- ===== src/Gates/Comparison.antt =====
-- plonky2x/core/src/frontend/uint/num/u32/gates/comparison.rs: that one value is at most another.
use succinctx.Prelude.{ℕ, zero, suc, ◌+◌, ◌*◌, ◌^◌, List, [], ◌∷◌, ◌++◌, map}
use succinctx.Gates.Field.{Field}
use succinctx.Gates.Limbs.{product_loop}
use succinctx.Gates.AddMany.{collect}
use succinctx.Gates.RangeCheck.{Reduce}

pub record ComparisonGate : Type 0 where
  pub num_bits : ℕ
  pub num_chunks : ℕ

unfoldable pub wire_first_input : ℕ
wire_first_input = 0

unfoldable pub wire_second_input : ℕ
wire_second_input = 1

unfoldable pub wire_result_bool : ℕ
wire_result_bool = 2

unfoldable pub wire_most_significant_diff : ℕ
wire_most_significant_diff = 3

module _ (gate : ComparisonGate) where
  unfoldable pub wire_first_chunk_val : ℕ → ℕ
  wire_first_chunk_val chunk = 4 + chunk

  unfoldable pub wire_second_chunk_val : ℕ → ℕ
  wire_second_chunk_val chunk = 4 + gate.num_chunks + chunk

  unfoldable pub wire_equality_dummy : ℕ → ℕ
  wire_equality_dummy chunk = 4 + 2 * gate.num_chunks + chunk

  unfoldable pub wire_chunks_equal : ℕ → ℕ
  wire_chunks_equal chunk = 4 + 3 * gate.num_chunks + chunk

  unfoldable pub wire_intermediate_value : ℕ → ℕ
  wire_intermediate_value chunk = 4 + 4 * gate.num_chunks + chunk

  unfoldable pub wire_most_significant_diff_bit : ℕ → ℕ
  wire_most_significant_diff_bit bit_index = 4 + 5 * gate.num_chunks + bit_index

-- plonky2's `ceil_div_usize` is a parameter.
module _ (ceil_div_usize : ℕ → ℕ → ℕ) (gate : ComparisonGate) where
  unfoldable pub chunk_bits : ℕ
  chunk_bits = ceil_div_usize gate.num_bits gate.num_chunks

  unfoldable pub num_wires : ℕ
  unfolding chunk_bits
  num_wires = 4 + 5 * gate.num_chunks + (chunk_bits + 1)

module _ (f : Field) (gate : ComparisonGate) (local_wires : ℕ → f.F) where
  open f use {F, zero_f, one_f, add, sub, mul, from_canonical}

  -- The chunks from number `i` on, `left` of them: their constraints, and
  -- `most_significant_diff_so_far`.
  unfoldable pub chunk_loop : ℕ → ℕ → ℕ → F → List F × F
  chunk_loop chunk_size zero i diff_so_far = ([], diff_so_far)
  chunk_loop chunk_size (suc left) i diff_so_far =
      let first_chunk = local_wires (wire_first_chunk_val gate i) in
      let second_chunk = local_wires (wire_second_chunk_val gate i) in
      let difference = sub second_chunk first_chunk in
      let equality_dummy = local_wires (wire_equality_dummy gate i) in
      let chunks_equal = local_wires (wire_chunks_equal gate i) in
      let intermediate_value = local_wires (wire_intermediate_value gate i) in
      let (constraints, most_significant_diff_so_far) =
        chunk_loop chunk_size left (i + 1)
          (add intermediate_value (mul (sub one_f chunks_equal) difference)) in
      (
        product_loop f chunk_size 0 one_f first_chunk
            ∷ product_loop f chunk_size 0 one_f second_chunk
            ∷ sub (mul difference equality_dummy) (sub one_f chunks_equal)
            ∷ mul chunks_equal difference
            ∷ sub intermediate_value (mul chunks_equal diff_so_far)
            ∷ constraints,
        most_significant_diff_so_far,
      )

  module _ (r : Reduce f) (ceil_div_usize : ℕ → ℕ → ℕ) where
    unfoldable pub eval_unfiltered : List F
    unfolding chunk_loop
    eval_unfiltered =
        let first_input = local_wires wire_first_input in
        let second_input = local_wires wire_second_input in
        let chunk_size = 2 ^ chunk_bits ceil_div_usize gate in
        let first_chunks =
          collect (λ i. local_wires (wire_first_chunk_val gate i)) gate.num_chunks 0 in
        let second_chunks =
          collect (λ i. local_wires (wire_second_chunk_val gate i)) gate.num_chunks 0 in
        let first_chunks_combined = r.reduce_with_powers first_chunks (from_canonical chunk_size) in
        let second_chunks_combined =
          r.reduce_with_powers second_chunks (from_canonical chunk_size) in
        let (constraints, most_significant_diff_so_far) =
          chunk_loop chunk_size gate.num_chunks 0 zero_f in
        let most_significant_diff = local_wires wire_most_significant_diff in
        let diff_bit = λ (i : ℕ). local_wires (wire_most_significant_diff_bit gate i) in
        let most_significant_diff_bits = collect diff_bit (chunk_bits ceil_div_usize gate + 1) 0 in
        let bits_combined = r.reduce_with_powers most_significant_diff_bits (from_canonical 2) in
        let two_n = from_canonical chunk_size in
        let result_bool = local_wires wire_result_bool in
        sub first_chunks_combined first_input
        ∷ sub second_chunks_combined second_input
        ∷ (constraints
            ++ (sub most_significant_diff most_significant_diff_so_far
                ∷ (map (λ bit. mul bit (sub one_f bit)) most_significant_diff_bits
                    ++ (sub (add two_n most_significant_diff) bits_combined
                        ∷ sub result_bool (diff_bit (chunk_bits ceil_div_usize gate))
                        ∷ []))))

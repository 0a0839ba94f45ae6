-- ===== src/Gates/Subtraction.antt =====
-- plonky2x/core/src/frontend/uint/num/u32/gates/subtraction_u32.rs: the difference of two 32-bit
-- values and a borrow.
use succinctx.Prelude.{ℕ, zero, suc, ◌+◌, ◌*◌, ◌/◌, ◌^◌, min, List, [], ◌∷◌, ◌++◌}
use succinctx.Gates.Field.{Field, for_ops}
use succinctx.Gates.Limbs.{range_product}
use succinctx.Gates.Circuit.{
  ExtensionTarget, wire, constant_extension, sub_extension, mul_extension, mul_add_extension,
  circuit_product_loop,
}
use succinctx.Gates.Arithmetic.{CircuitConfig}

pub record U32SubtractionGate : Type 0 where
  pub num_ops : ℕ

abbrev pub num_limbs : ℕ
num_limbs = 16

unfoldable pub new_from_config : CircuitConfig → U32SubtractionGate
new_from_config config = record {
  num_ops = min (config.num_wires / (5 + num_limbs)) (config.num_routed_wires / 5);
}

unfoldable pub wire_ith_input_x : ℕ → ℕ
wire_ith_input_x i = 5 * i

unfoldable pub wire_ith_input_y : ℕ → ℕ
wire_ith_input_y i = 5 * i + 1

unfoldable pub wire_ith_input_borrow : ℕ → ℕ
wire_ith_input_borrow i = 5 * i + 2

unfoldable pub wire_ith_output_result : ℕ → ℕ
wire_ith_output_result i = 5 * i + 3

unfoldable pub wire_ith_output_borrow : ℕ → ℕ
wire_ith_output_borrow i = 5 * i + 4

unfoldable pub wire_ith_output_jth_limb : U32SubtractionGate → ℕ → ℕ → ℕ
wire_ith_output_jth_limb gate i j = 5 * gate.num_ops + num_limbs * i + j

unfoldable pub num_wires : U32SubtractionGate → ℕ
num_wires gate = gate.num_ops * (5 + num_limbs)

module _ (f : Field) where
  open f use {F, zero_f, one_f, add, sub, mul, from_canonical}

  -- The limbs below index `left`, the highest first.
  unfoldable pub combined_loop : (ℕ → F) → ℕ → F → List F × F
  combined_loop limb zero combined_limbs = ([], combined_limbs)
  combined_loop limb (suc left) combined_limbs =
      let this_limb = limb left in
      let (products, combined) =
        combined_loop limb left (add (mul (from_canonical 4) combined_limbs) this_limb) in
      (range_product f this_limb ∷ products, combined)

  unfoldable pub circuit_combined_loop :
      (ℕ → ℕ) → ℕ → ExtensionTarget f → List (ExtensionTarget f) × ExtensionTarget f
  circuit_combined_loop limb zero combined_limbs = ([], combined_limbs)
  circuit_combined_loop limb (suc left) combined_limbs =
      let limb_base = constant_extension (from_canonical 4) in
      let this_limb = wire (limb left) in
      let product = circuit_product_loop f 4 0 (constant_extension one_f) this_limb in
      let (products, combined) =
        circuit_combined_loop limb left (mul_add_extension limb_base combined_limbs this_limb) in
      (product ∷ products, combined)

  unfoldable pub packed_combined_loop : (ℕ → F) → ℕ → F → List F × F
  packed_combined_loop limb zero combined_limbs = ([], combined_limbs)
  packed_combined_loop limb (suc left) combined_limbs =
      let this_limb = limb left in
      let (products, combined) =
        packed_combined_loop limb left (add (mul combined_limbs (from_canonical 4)) this_limb) in
      (range_product f this_limb ∷ products, combined)

  module _ (gate : U32SubtractionGate) where
    -- The constraints of operation `i`.
    unfoldable pub op_constraints : (ℕ → F) → ℕ → List F
    op_constraints local_wires i =
        let input_x = local_wires (wire_ith_input_x i) in
        let input_y = local_wires (wire_ith_input_y i) in
        let input_borrow = local_wires (wire_ith_input_borrow i) in
        let result_initial = sub (sub input_x input_y) input_borrow in
        let base = from_canonical (2 ^ 32) in
        let output_result = local_wires (wire_ith_output_result i) in
        let output_borrow = local_wires (wire_ith_output_borrow i) in
        let limb = λ (j : ℕ). local_wires (wire_ith_output_jth_limb gate i j) in
        let (products, combined_limbs) = combined_loop limb num_limbs zero_f in
        sub output_result (add result_initial (mul base output_borrow))
        ∷ (products
            ++ (sub combined_limbs output_result
                ∷ mul output_borrow (sub one_f output_borrow)
                ∷ []))

    unfoldable pub eval_unfiltered : (ℕ → F) → List F
    unfolding op_constraints
    eval_unfiltered local_wires = for_ops gate.num_ops 0 (op_constraints local_wires)

    unfoldable pub op_constraints_circuit : ℕ → List (ExtensionTarget f)
    op_constraints_circuit i =
        let input_x = wire (wire_ith_input_x i) in
        let input_y = wire (wire_ith_input_y i) in
        let input_borrow = wire (wire_ith_input_borrow i) in
        let diff = sub_extension input_x input_y in
        let result_initial = sub_extension diff input_borrow in
        let base = constant_extension (from_canonical (2 ^ 32)) in
        let output_result = wire (wire_ith_output_result i) in
        let output_borrow = wire (wire_ith_output_borrow i) in
        let computed_output = mul_add_extension base output_borrow result_initial in
        let (products, combined_limbs) =
          circuit_combined_loop (wire_ith_output_jth_limb gate i) num_limbs
            (constant_extension zero_f) in
        let not_borrow = sub_extension (constant_extension one_f) output_borrow in
        sub_extension output_result computed_output
        ∷ (products
            ++ (sub_extension combined_limbs output_result
                ∷ mul_extension output_borrow not_borrow
                ∷ []))

    unfoldable pub eval_unfiltered_circuit : List (ExtensionTarget f)
    unfolding op_constraints_circuit
    eval_unfiltered_circuit = for_ops gate.num_ops 0 op_constraints_circuit

    unfoldable pub op_constraints_packed : (ℕ → F) → ℕ → List F
    op_constraints_packed local_wires i =
        let input_x = local_wires (wire_ith_input_x i) in
        let input_y = local_wires (wire_ith_input_y i) in
        let input_borrow = local_wires (wire_ith_input_borrow i) in
        let result_initial = sub (sub input_x input_y) input_borrow in
        let base = from_canonical (2 ^ 32) in
        let output_result = local_wires (wire_ith_output_result i) in
        let output_borrow = local_wires (wire_ith_output_borrow i) in
        let limb = λ (j : ℕ). local_wires (wire_ith_output_jth_limb gate i j) in
        let (products, combined_limbs) = packed_combined_loop limb num_limbs zero_f in
        sub output_result (add result_initial (mul output_borrow base))
        ∷ (products
            ++ (sub combined_limbs output_result
                ∷ mul output_borrow (sub one_f output_borrow)
                ∷ []))

    unfoldable pub eval_unfiltered_base_packed : (ℕ → F) → List F
    unfolding op_constraints_packed
    eval_unfiltered_base_packed local_wires =
        for_ops gate.num_ops 0 (op_constraints_packed local_wires)

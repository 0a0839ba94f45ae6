-- ===== src/Gates/ArithmeticEval.antt =====
-- The three evaluations of `U32ArithmeticGate` agree.
use mathlib.Core.Path.{fun_ext}
use succinctx.Prelude.{ℕ, ◌-◌, ◌/◌, ◌^◌, ◌≡◌, ap, ◌∙◌, List, [], ◌∷◌, ◌++◌, map}
use succinctx.Gates.Field.{Field, for_ops, map-for_ops}
use succinctx.Gates.Circuit.{
  ExtensionTarget, wire, constant_extension, sub_extension, mul_extension, mul_add_extension,
  mul_sub_extension, target_value, circuit_limbs_loop, circuit_limbs_loop-append,
}
use succinctx.Gates.Packed.{packed_limbs_loop, packed_limbs_loop_lem}
use succinctx.Gates.Arithmetic.{
  U32ArithmeticGate, op_constraints, eval_unfiltered, num_limbs, wire_ith_multiplicand_0,
  wire_ith_multiplicand_1, wire_ith_addend, wire_ith_output_low_half, wire_ith_output_high_half,
  wire_ith_inverse, wire_ith_output_jth_limb,
}

module _ (f : Field) (gate : U32ArithmeticGate) where
  open f use {F, zero_f, one_f, add, sub, mul, from_canonical}

  unfoldable pub op_constraints_circuit : ℕ → List (ExtensionTarget f)
  op_constraints_circuit i =
      let multiplicand_0 = wire (wire_ith_multiplicand_0 i) in
      let multiplicand_1 = wire (wire_ith_multiplicand_1 i) in
      let addend = wire (wire_ith_addend i) in
      let computed_output = mul_add_extension multiplicand_0 multiplicand_1 addend in
      let output_low = wire (wire_ith_output_low_half i) in
      let output_high = wire (wire_ith_output_high_half i) in
      let inverse = wire (wire_ith_inverse i) in
      let base_target = constant_extension (from_canonical (2 ^ 32)) in
      let one = constant_extension one_f in
      let u32_max = constant_extension (from_canonical (2 ^ 32 - 1)) in
      let diff = sub_extension u32_max output_high in
      let hi_not_max = mul_sub_extension inverse diff one in
      let hi_not_max_or_lo_zero = mul_extension hi_not_max output_low in
      let combined_output = mul_add_extension output_high base_target output_low in
      let zero_target = constant_extension zero_f in
      let (products, combined_low_limbs, combined_high_limbs) =
        circuit_limbs_loop f (wire_ith_output_jth_limb gate i) (num_limbs / 2) num_limbs zero_target
          zero_target in
      hi_not_max_or_lo_zero
      ∷ sub_extension combined_output computed_output
      ∷ (products
          ++ (sub_extension combined_low_limbs output_low
              ∷ sub_extension combined_high_limbs output_high
              ∷ []))

  unfoldable pub eval_unfiltered_circuit : List (ExtensionTarget f)
  unfolding op_constraints_circuit
  eval_unfiltered_circuit = for_ops gate.num_ops 0 op_constraints_circuit

  module _ (w : ℕ → F) where
    unfoldable pub op_constraints_packed : ℕ → List F
    op_constraints_packed i =
        let multiplicand_0 = w (wire_ith_multiplicand_0 i) in
        let multiplicand_1 = w (wire_ith_multiplicand_1 i) in
        let addend = w (wire_ith_addend i) in
        let computed_output = add (mul multiplicand_0 multiplicand_1) addend in
        let output_low = w (wire_ith_output_low_half i) in
        let output_high = w (wire_ith_output_high_half i) in
        let inverse = w (wire_ith_inverse i) in
        let base = from_canonical (2 ^ 32) in
        let diff = sub (from_canonical (2 ^ 32 - 1)) output_high in
        let hi_not_max = sub (mul inverse diff) one_f in
        let hi_not_max_or_lo_zero = mul hi_not_max output_low in
        let combined_output = add (mul output_high base) output_low in
        let limb = λ (j : ℕ). w (wire_ith_output_jth_limb gate i j) in
        let (products, combined_low_limbs, combined_high_limbs) =
          packed_limbs_loop f limb (num_limbs / 2) num_limbs zero_f zero_f in
        hi_not_max_or_lo_zero
        ∷ sub combined_output computed_output
        ∷ (products
            ++ (sub combined_low_limbs output_low ∷ sub combined_high_limbs output_high ∷ []))

    unfoldable pub eval_unfiltered_base_packed : List F
    unfolding op_constraints_packed
    eval_unfiltered_base_packed = for_ops gate.num_ops 0 op_constraints_packed

    op_constraints_circuit-value :
        (i : ℕ) → map (target_value f w) (op_constraints_circuit i) ≡ op_constraints f gate w i
    unfolding op_constraints_circuit op_constraints target_value
    op_constraints_circuit-value i = rw (
        circuit_limbs_loop-append f w (wire_ith_output_jth_limb gate i) 16 32
          (wire (wire_ith_output_low_half i)) (wire (wire_ith_output_high_half i)))

    op_constraints_packed_lem : (i : ℕ) → op_constraints_packed i ≡ op_constraints f gate w i
    unfolding op_constraints_packed op_constraints
    op_constraints_packed_lem i =
        rw
          (packed_limbs_loop_lem f (λ j. w (wire_ith_output_jth_limb gate i j)) 16 32 zero_f zero_f)

    -- The targets of the circuit have the values of the constraints, and the packed evaluation
    -- gives the same constraints in the same order.
    pub eval_unfiltered_circuit-value :
        (map (target_value f w) eval_unfiltered_circuit ≡ eval_unfiltered f gate w)
        × (eval_unfiltered_base_packed ≡ eval_unfiltered f gate w)
    unfolding eval_unfiltered_circuit eval_unfiltered eval_unfiltered_base_packed
    eval_unfiltered_circuit-value = (
      map-for_ops (target_value f w) gate.num_ops 0 op_constraints_circuit
          ∙ ap (for_ops gate.num_ops 0) (fun_ext op_constraints_circuit-value),
      ap (for_ops gate.num_ops 0) (fun_ext op_constraints_packed_lem),
    )

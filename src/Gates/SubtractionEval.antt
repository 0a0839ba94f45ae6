-- ===== src/Gates/SubtractionEval.antt =====
-- The three evaluations of `U32SubtractionGate` agree.
use mathlib.Core.Path.{fun_ext}
use mathlib.Core.List.{map-append}
use succinctx.Prelude.{ℕ, zero, suc, ◌^◌, ◌≡◌, refl, ap, ap₂, ◌∙◌, [], ◌∷◌, ◌++◌, map}
use succinctx.Gates.Field.{Field, for_ops, map-for_ops}
use succinctx.Gates.Limbs.{range_product}
use succinctx.Gates.Circuit.{
  ExtensionTarget, wire, constant_extension, sub_extension, mul_extension, mul_add_extension,
  target_value, circuit_product_loop-value,
}
use succinctx.Gates.Subtraction.{
  U32SubtractionGate, combined_loop, circuit_combined_loop, packed_combined_loop, op_constraints,
  eval_unfiltered, op_constraints_circuit, eval_unfiltered_circuit, op_constraints_packed,
  eval_unfiltered_base_packed, wire_ith_input_x, wire_ith_input_y, wire_ith_input_borrow,
  wire_ith_output_result, wire_ith_output_borrow, wire_ith_output_jth_limb,
}

module _ (f : Field) where
  open f use {F, zero_f, one_f, add, sub, mul, from_canonical}

  packed_combined_loop_lem :
      (limb : ℕ → F) (left : ℕ) (combined : F)
      → packed_combined_loop f limb left combined ≡ combined_loop f limb left combined
  unfolding packed_combined_loop combined_loop
  packed_combined_loop_lem limb zero combined = refl
  packed_combined_loop_lem limb (suc left) combined = rw (
    f.mul_comm combined (from_canonical 4),
    packed_combined_loop_lem limb left (add (mul (from_canonical 4) combined) (limb left)),
  )

  circuit_combined_loop-value :
      (w : ℕ → F) (limb : ℕ → ℕ) (left : ℕ) (combined : ExtensionTarget f)
      → let out = circuit_combined_loop f limb left combined in
        let out' = combined_loop f (λ j. w (limb j)) left (target_value f w combined) in
        (map (target_value f w) out.0 ≡ out'.0) × (target_value f w out.1 ≡ out'.1)
  unfolding circuit_combined_loop combined_loop range_product target_value
  circuit_combined_loop-value w limb zero combined = (refl, refl)
  circuit_combined_loop-value w limb (suc left) combined =
      let this_limb : ExtensionTarget f = wire (limb left) in
      let rest =
        circuit_combined_loop-value w limb left
          (mul_add_extension (constant_extension (from_canonical 4)) combined this_limb) in
      (
        ap₂ (λ x xs. x ∷ xs)
            (circuit_product_loop-value f w 4 0 (constant_extension one_f) this_limb) rest.0,
        rest.1,
      )

  module _ (gate : U32SubtractionGate) (w : ℕ → F) where
    op_constraints_circuit-value :
        (i : ℕ)
        → map (target_value f w) (op_constraints_circuit f gate i) ≡ op_constraints f gate w i
    unfolding op_constraints_circuit op_constraints target_value
    op_constraints_circuit-value i =
        let zero_target : ExtensionTarget f = constant_extension zero_f in
        let result : ExtensionTarget f = wire (wire_ith_output_result i) in
        let borrow : ExtensionTarget f = wire (wire_ith_output_borrow i) in
        let out = circuit_combined_loop f (wire_ith_output_jth_limb gate i) 16 zero_target in
        let (e, e') =
          circuit_combined_loop-value w (wire_ith_output_jth_limb gate i) 16 zero_target in
        let x = w (wire_ith_input_x i) in
        let y = w (wire_ith_input_y i) in
        let b = w (wire_ith_input_borrow i) in
        let r = w (wire_ith_output_result i) in
        let c = w (wire_ith_output_borrow i) in
        ap₂ (λ z zs. z ∷ zs)
          (ap (λ a. sub r a) (f.add_comm (mul (from_canonical (2 ^ 32)) c) (sub (sub x y) b)))
          (map-append (target_value f w) out.0 (
              sub_extension out.1 result
              ∷ mul_extension borrow (sub_extension (constant_extension one_f) borrow)
              ∷ [])
            ∙ ap₂ (λ zs z. zs ++ (sub z r ∷ mul c (sub one_f c) ∷ [])) e e')

    op_constraints_packed_lem :
        (i : ℕ) → op_constraints_packed f gate w i ≡ op_constraints f gate w i
    unfolding op_constraints_packed op_constraints
    op_constraints_packed_lem i = rw (
      packed_combined_loop_lem (λ j. w (wire_ith_output_jth_limb gate i j)) 16 zero_f,
      f.mul_comm (w (wire_ith_output_borrow i)) (from_canonical (2 ^ 32)),
    )

    -- The targets of the circuit have the values of the constraints, and the packed evaluation gives
    -- the same constraints, in the same order, although they write the products and sums in other
    -- orders.
    pub eval_unfiltered_circuit-value :
        (map (target_value f w) (eval_unfiltered_circuit f gate) ≡ eval_unfiltered f gate w)
        × (eval_unfiltered_base_packed f gate w ≡ eval_unfiltered f gate w)
    unfolding eval_unfiltered_circuit eval_unfiltered eval_unfiltered_base_packed
    eval_unfiltered_circuit-value = (
      map-for_ops (target_value f w) gate.num_ops 0 (op_constraints_circuit f gate)
          ∙ ap (for_ops gate.num_ops 0) (fun_ext op_constraints_circuit-value),
      ap (for_ops gate.num_ops 0) (fun_ext op_constraints_packed_lem),
    )

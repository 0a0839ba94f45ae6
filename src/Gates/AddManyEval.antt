-- ===== src/Gates/AddManyEval.antt =====
-- The two evaluations of `U32AddManyGate` agree.
use mathlib.Core.Path.{fun_ext}
use succinctx.Prelude.{ℕ, ◌^◌, ◌≡◌, refl, sym, ap, ap₂, ◌∙◌, List, [], ◌∷◌, map}
use succinctx.Gates.Field.{Field, add_right_comm, for_ops, map-for_ops}
use succinctx.Gates.Circuit.{
  ExtensionTarget, wire, add_extension, target_value, circuit_limbs_loop-append,
}
use succinctx.Gates.AddMany.{
  U32AddManyGate, collect, map-collect, fold_add, op_constraints, eval_unfiltered, circuit_fold_add,
  op_constraints_circuit, eval_unfiltered_circuit, wire_ith_op_jth_addend, wire_ith_carry,
  wire_ith_output_result, wire_ith_output_carry, wire_ith_output_jth_limb,
}

module _ (f : Field) (gate : U32AddManyGate) (w : ℕ → f.F) where
  open f use {F, zero_f, add, sub, mul, from_canonical}

  circuit_fold_add-value :
      (computed_output : ExtensionTarget f) (addends : List (ExtensionTarget f))
      → target_value f w (circuit_fold_add f gate computed_output addends)
        ≡ fold_add f gate (target_value f w computed_output) (map (target_value f w) addends)
  unfolding circuit_fold_add fold_add target_value
  circuit_fold_add-value computed_output [] = refl
  circuit_fold_add-value computed_output (addend ∷ addends) =
      circuit_fold_add-value (add_extension computed_output addend) addends

  -- The carry can be added first or last.
  fold_add_comm :
      (a carry : F) (xs : List F)
      → fold_add f gate (add a carry) xs ≡ add (fold_add f gate a xs) carry
  unfolding fold_add
  fold_add_comm a carry [] = refl
  fold_add_comm a carry (x ∷ xs) =
      ap (λ b. fold_add f gate b xs) (add_right_comm f a carry x) ∙ fold_add_comm (add a x) carry xs

  op_constraints_circuit-value :
      (i : ℕ) → map (target_value f w) (op_constraints_circuit f gate i) ≡ op_constraints f gate w i
  unfolding op_constraints_circuit op_constraints target_value
  op_constraints_circuit-value i =
      let addends = collect (λ j. w (wire_ith_op_jth_addend gate i j)) gate.num_addends 0 in
      let carry = w (wire_ith_carry gate i) in
      let sums : target_value f w (
            circuit_fold_add f gate (wire (wire_ith_carry gate i))
              (collect (λ j. wire (wire_ith_op_jth_addend gate i j)) gate.num_addends 0))
          ≡ fold_add f gate carry addends =
        circuit_fold_add-value (wire (wire_ith_carry gate i)) _
        ∙ ap (fold_add f gate carry) (
            map-collect (target_value f w) (λ j. wire (wire_ith_op_jth_addend gate i j))
              gate.num_addends 0) in
      let combined_output =
        add (mul (w (wire_ith_output_carry gate i)) (from_canonical (2 ^ 32)))
          (w (wire_ith_output_result gate i)) in
      let order : fold_add f gate carry addends ≡ add (fold_add f gate zero_f addends) carry =
        ap (λ a. fold_add f gate a addends) (sym (f.zero_add carry))
        ∙ fold_add_comm zero_f carry addends in
      ap₂ (λ x xs. sub combined_output x ∷ xs) (sums ∙ order)
        (circuit_limbs_loop-append f w (wire_ith_output_jth_limb gate i) 16 19
          (wire (wire_ith_output_result gate i)) (wire (wire_ith_output_carry gate i)))

  -- The targets of the circuit have the values of the constraints, in the same order, although the
  -- circuit adds the carry first.
  pub eval_unfiltered_circuit-value :
      map (target_value f w) (eval_unfiltered_circuit f gate) ≡ eval_unfiltered f gate w
  unfolding eval_unfiltered_circuit eval_unfiltered
  eval_unfiltered_circuit-value =
      map-for_ops (target_value f w) gate.num_ops 0 (op_constraints_circuit f gate)
      ∙ ap (for_ops gate.num_ops 0) (fun_ext op_constraints_circuit-value)

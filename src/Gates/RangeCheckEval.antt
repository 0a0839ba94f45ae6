-- ===== src/Gates/RangeCheckEval.antt =====
-- The two evaluations of `U32RangeCheckGate` agree.
use mathlib.Core.Path.{fun_ext}
use succinctx.Prelude.{ℕ, zero, suc, ◌+◌, ◌≡◌, refl, sym, ap, ap₂, ◌∙◌, List, [], ◌∷◌, map}
use succinctx.Gates.Field.{Field, for_ops, map-for_ops}
use succinctx.Gates.Limbs.{product_loop, range_product}
use succinctx.Gates.Circuit.{
  ExtensionTarget, wire, constant_extension, arithmetic_extension, target_value,
}
use succinctx.Gates.AddMany.{collect, map-collect}
use succinctx.Gates.RangeCheck.{
  Reduce, U32RangeCheckGate, acc_loop, limb_constraints, eval_unfiltered, limb_constraints_circuit,
  eval_unfiltered_circuit, wire_ith_input_limb, wire_ith_input_limb_jth_aux_limb,
}

module _ (f : Field) (r : Reduce f) (gate : U32RangeCheckGate) (w : ℕ → f.F) where
  open f use {F, zero_f, one_f, add, sub, mul, neg, from_canonical}

  -- One step of the accumulator: acc * x + (-i) * acc.
  step : (acc x i : F) → add (mul one_f (mul acc x)) (mul (neg i) acc) ≡ mul acc (sub x i)
  step acc x i =
      ap₂ (λ a b. add a b) (f.one_mul (mul acc x)) (f.mul_comm (neg i) acc)
      ∙ sym (f.mul_add acc x (neg i))
      ∙ ap (λ a. mul acc a) (f.add_neg x i)

  acc_loop-value :
      (left i : ℕ) (acc aux_limb : ExtensionTarget f) (a : F)
      → target_value f w acc ≡ a
      → target_value f w (acc_loop f r gate left i acc aux_limb)
        ≡ product_loop f left i a (target_value f w aux_limb)
  unfolding acc_loop product_loop target_value
  acc_loop-value zero i acc aux_limb a e = e
  acc_loop-value (suc left) i acc aux_limb a e =
      acc_loop-value left (i + 1)
        (arithmetic_extension one_f (neg (from_canonical i)) acc aux_limb acc) aux_limb
        (mul a (sub (target_value f w aux_limb) (from_canonical i)))
        (step (target_value f w acc) (target_value f w aux_limb) (from_canonical i)
          ∙ ap (λ b. mul b (sub (target_value f w aux_limb) (from_canonical i))) e)

  products-value :
      (ts : List (ExtensionTarget f))
      → map (target_value f w) (map (λ t. acc_loop f r gate 4 0 (constant_extension one_f) t) ts)
        ≡ map (range_product f) (map (target_value f w) ts)
  unfolding range_product target_value
  products-value [] = refl
  products-value (t ∷ ts) =
      ap₂ (λ x xs. x ∷ xs) (acc_loop-value 4 0 (constant_extension one_f) t one_f refl)
        (products-value ts)

  limb_constraints_circuit-value :
      (i : ℕ)
      → map (target_value f w) (limb_constraints_circuit f r gate i) ≡ limb_constraints f r gate w i
  unfolding limb_constraints_circuit limb_constraints target_value
  limb_constraints_circuit-value i =
      let wires : List (ExtensionTarget f) =
        collect (λ j. wire (wire_ith_input_limb_jth_aux_limb gate i j)) 16 0 in
      let values =
        map-collect (target_value f w) (λ j. wire (wire_ith_input_limb_jth_aux_limb gate i j)) 16
          0 in
      ap₂ (λ x xs. sub x (w (wire_ith_input_limb i)) ∷ xs)
        (r.reduce-value w wires (from_canonical 4)
          ∙ ap (λ xs. r.reduce_with_powers xs (from_canonical 4)) values)
        (products-value wires ∙ ap (map (range_product f)) values)

  -- The targets of the circuit have the values of the constraints, in the same order.
  pub eval_unfiltered_circuit-value :
      map (target_value f w) (eval_unfiltered_circuit f r gate) ≡ eval_unfiltered f r gate w
  unfolding eval_unfiltered_circuit eval_unfiltered
  eval_unfiltered_circuit-value =
      map-for_ops (target_value f w) gate.num_input_limbs 0 (limb_constraints_circuit f r gate)
      ∙ ap (for_ops gate.num_input_limbs 0) (fun_ext limb_constraints_circuit-value)

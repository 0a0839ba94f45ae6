-- ===== src/Gates/Tests.antt =====
-- Examples of the constraints of the gates.
use succinctx.Prelude.{ℕ, ◌^◌, ◌<◌, ◌≡◌, refl, [], ◌∷◌, map, arith, ok}
use succinctx.Gates.Integers.{pos, integers, integers-IsDomain}
use succinctx.Gates.Circuit.{target_value}
use succinctx.Gates.Limbs.{product_loop, range_product, limbs_loop}
use succinctx.Gates.Field.{for_ops}
use succinctx.Gates.RangeCheck.{Reduce}
use succinctx.Gates.AddMany as AddMany
use succinctx.Gates.AddManySound.{eval_unfiltered-add_many_gate}
use succinctx.Gates.Subtraction as Subtraction
use succinctx.Gates.SubtractionSound.{eval_unfiltered-sub_u32}
use succinctx.Gates.RangeCheck as RangeCheck
use succinctx.Gates.RangeCheckSound.{eval_unfiltered-lt}
use succinctx.Gates.Comparison as Comparison
use succinctx.Gates.ComparisonSound.{eval_unfiltered-comparison}
use succinctx.Gates.ArithmeticEval as ArithmeticEval
use succinctx.Gates.ComparisonEval as ComparisonEval
use succinctx.Gates.Evaluations.{circuits-value}
use succinctx.Gates.Arithmetic as Arithmetic
use succinctx.Gates.ArithmeticSound.{eval_unfiltered-mul_add_u32}
use succinctx.Uint.Gadgets.{mul_add_u32, add_many_gate, sub_u32, comparison}
use succinctx.Gates.Examples.{
  zeros-AllZero, square_wires, one_product, difference_wires, one_difference, sum_wires, one_sum,
  horner, integers_reduce, digit_wires, one_limb, order_wires, two_chunks, divide_up,
}

eval_unfiltered-mul_add_u32_example :
    (square_wires 3 ≡ pos (mul_add_u32 65536 65536 0).0)
    × (square_wires 4 ≡ pos (mul_add_u32 65536 65536 0).1)
unfolding Arithmetic.eval_unfiltered Arithmetic.op_constraints for_ops limbs_loop range_product
    product_loop Arithmetic.wire_ith_multiplicand_0 Arithmetic.wire_ith_multiplicand_1
    Arithmetic.wire_ith_addend Arithmetic.wire_ith_output_low_half
    Arithmetic.wire_ith_output_high_half Arithmetic.wire_ith_inverse
    Arithmetic.wire_ith_output_jth_limb
eval_unfiltered-mul_add_u32_example =
    eval_unfiltered-mul_add_u32 integers integers-IsDomain one_product square_wires 0 65536 65536 0
      (zeros-AllZero (Arithmetic.eval_unfiltered integers one_product square_wires) refl)
      (omega arith) refl refl refl (omega arith) (omega arith) (omega arith)

eval_unfiltered-sub_u32_example :
    (difference_wires 3 ≡ pos (sub_u32 3 5 1).0) × (difference_wires 4 ≡ pos (sub_u32 3 5 1).1)
unfolding Subtraction.eval_unfiltered Subtraction.op_constraints Subtraction.combined_loop for_ops
    range_product product_loop Subtraction.wire_ith_input_x Subtraction.wire_ith_input_y
    Subtraction.wire_ith_input_borrow Subtraction.wire_ith_output_result
    Subtraction.wire_ith_output_borrow Subtraction.wire_ith_output_jth_limb
eval_unfiltered-sub_u32_example =
    eval_unfiltered-sub_u32 integers integers-IsDomain one_difference difference_wires 0 3 5 1
      (zeros-AllZero (Subtraction.eval_unfiltered integers one_difference difference_wires) refl)
      (omega arith) refl refl refl (omega arith) (omega arith) (omega arith)

eval_unfiltered-add_many_gate_example :
    (r : ℕ) × (c : ℕ) × (add_many_gate (4294967295 ∷ 4294967295 ∷ 5 ∷ []) 7 ≡ ok (r, c))
    × (sum_wires 4 ≡ pos r)
    × (sum_wires 5 ≡ pos c)
unfolding AddMany.eval_unfiltered AddMany.op_constraints AddMany.collect AddMany.fold_add for_ops
    limbs_loop range_product product_loop AddMany.wire_ith_op_jth_addend AddMany.wire_ith_carry
    AddMany.wire_ith_output_result AddMany.wire_ith_output_carry AddMany.wire_ith_output_jth_limb
eval_unfiltered-add_many_gate_example =
    eval_unfiltered-add_many_gate integers one_sum integers-IsDomain sum_wires 0 7
      (4294967295 ∷ 4294967295 ∷ 5 ∷ [])
      (zeros-AllZero (AddMany.eval_unfiltered integers one_sum sum_wires) refl) (omega arith) refl
      (omega arith) (omega arith, (omega arith, (omega arith, tt))) (omega arith)
      (refl, (refl, (refl, tt))) refl

eval_unfiltered-lt_example : (n : ℕ) × (n < 2 ^ 32) × (digit_wires 0 ≡ pos n)
unfolding RangeCheck.eval_unfiltered RangeCheck.limb_constraints AddMany.collect for_ops
    range_product product_loop RangeCheck.wire_ith_input_limb
    RangeCheck.wire_ith_input_limb_jth_aux_limb integers_reduce horner
eval_unfiltered-lt_example =
    eval_unfiltered-lt integers integers_reduce integers-IsDomain one_limb digit_wires 0
      (zeros-AllZero (RangeCheck.eval_unfiltered integers integers_reduce one_limb digit_wires)
        refl)
      (omega arith)

eval_unfiltered-comparison_example : order_wires 2 ≡ pos (comparison 6 9)
unfolding Comparison.eval_unfiltered Comparison.chunk_loop Comparison.chunk_bits AddMany.collect
    product_loop Comparison.wire_first_input Comparison.wire_second_input
    Comparison.wire_result_bool Comparison.wire_most_significant_diff
    Comparison.wire_first_chunk_val Comparison.wire_second_chunk_val Comparison.wire_equality_dummy
    Comparison.wire_chunks_equal Comparison.wire_intermediate_value
    Comparison.wire_most_significant_diff_bit integers_reduce horner
eval_unfiltered-comparison_example =
    eval_unfiltered-comparison integers integers-IsDomain integers_reduce divide_up two_chunks
      order_wires 6 9
      (zeros-AllZero
        (Comparison.eval_unfiltered integers two_chunks order_wires integers_reduce divide_up) refl)
      (omega arith) (omega arith) refl refl (omega arith) (omega arith)

circuits-value_example :
    (map
        (target_value integers square_wires)
        (ArithmeticEval.eval_unfiltered_circuit integers one_product)
      ≡ Arithmetic.eval_unfiltered integers one_product square_wires)
    × (map (target_value integers square_wires) (AddMany.eval_unfiltered_circuit integers one_sum)
        ≡ AddMany.eval_unfiltered integers one_sum square_wires)
    × (map
          (target_value integers square_wires)
          (Subtraction.eval_unfiltered_circuit integers one_difference)
        ≡ Subtraction.eval_unfiltered integers one_difference square_wires)
    × (map
          (target_value integers square_wires)
          (RangeCheck.eval_unfiltered_circuit integers integers_reduce one_limb)
        ≡ RangeCheck.eval_unfiltered integers integers_reduce one_limb square_wires)
    × (map
          (target_value integers square_wires)
          (ComparisonEval.eval_unfiltered_circuit integers two_chunks integers_reduce divide_up)
        ≡ Comparison.eval_unfiltered integers two_chunks square_wires integers_reduce divide_up)
circuits-value_example =
    circuits-value integers integers_reduce divide_up square_wires one_product one_sum
      one_difference one_limb two_chunks

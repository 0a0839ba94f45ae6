-- ===== src/Gates/GeneratorTests.antt =====
-- Examples of the generators of the gates.
use succinctx.Prelude.{
  ℕ, zero, suc, ◌+◌, ◌-◌, ◌*◌, ◌/◌, ◌^◌, ◌<◌, ◌≡◌, refl, List, [], ◌∷◌, arith, length,
}
use succinctx.Gates.Field.{AllZero}
use succinctx.Gates.Integers.{pos, integers}
use succinctx.Gates.Field.{for_ops}
use succinctx.Gates.RangeCheck.{Reduce}
use succinctx.Gates.Generator.{scan_limbs, set_limbs}
use succinctx.Gates.AddMany as AddMany
use succinctx.Gates.AddManySound.{AreAddends}
use succinctx.Gates.Subtraction as Subtraction
use succinctx.Gates.RangeCheck as RangeCheck
use succinctx.Gates.SubtractionGenerator as SubtractionGenerator
use succinctx.Gates.SubtractionGenerator.{generators-sub_u32}
use succinctx.Gates.ArithmeticGenerator as ArithmeticGenerator
use succinctx.Gates.ArithmeticGenerator.{generators-mul_add_u32}
use succinctx.Gates.Arithmetic as Arithmetic
use succinctx.Uint.Gadgets.{sum}
use succinctx.Gates.Examples.{
  one_product, difference_wires, one_difference, sum_wires, one_sum, to_canonical,
  integers_canonical, digit_wires, greatest_wires, same,
}

one_limb_input :
    (i : ℕ)
    → i < 1
    → (n : ℕ) × (n < 2 ^ 32) × (digit_wires (RangeCheck.wire_ith_input_limb i) ≡ pos n)
unfolding RangeCheck.wire_ith_input_limb
one_limb_input zero h = (27, omega arith, refl)
one_limb_input (suc i) h = absurd (omega arith)

difference_inputs :
    (i : ℕ)
    → i < 1
    → (x : ℕ) × (y : ℕ) × (b : ℕ) × (x < 2 ^ 32)
      × (y < 2 ^ 32)
      × (b < 2)
      × (difference_wires (Subtraction.wire_ith_input_x i) ≡ pos x)
      × (difference_wires (Subtraction.wire_ith_input_y i) ≡ pos y)
      × (difference_wires (Subtraction.wire_ith_input_borrow i) ≡ pos b)
unfolding Subtraction.wire_ith_input_x Subtraction.wire_ith_input_y
    Subtraction.wire_ith_input_borrow
difference_inputs zero h = (3, 5, 1, omega arith, omega arith, omega arith, refl, refl, refl)
difference_inputs (suc i) h = absurd (omega arith)

generators-sub_u32_example :
    AllZero integers (Subtraction.eval_unfiltered integers one_difference difference_wires)
unfolding SubtractionGenerator.generators SubtractionGenerator.run_once for_ops set_limbs scan_limbs
    integers_canonical to_canonical Subtraction.wire_ith_input_x Subtraction.wire_ith_input_y
    Subtraction.wire_ith_input_borrow Subtraction.wire_ith_output_result
    Subtraction.wire_ith_output_borrow Subtraction.wire_ith_output_jth_limb
generators-sub_u32_example =
    generators-sub_u32 integers integers_canonical one_difference difference_wires difference_inputs
      (
        refl,
        (
          refl,
          (
            refl,
            (
              refl,
              (
                refl,
                (
                  refl,
                  (
                    refl,
                    (
                      refl,
                      (
                        refl,
                        (refl, (refl, (refl, (refl, (refl, (refl, (refl, (refl, (refl, tt))))))))),
                      ),
                    ),
                  ),
                ),
              ),
            ),
          ),
        ),
      )

sum_inputs :
    (i : ℕ)
    → i < 1
    → (xs : List ℕ) × (carry : ℕ) × (3 ≡ length xs)
      × (sum xs + carry < 2 ^ 38)
      × AreAddends integers one_sum sum_wires i 0 xs
      × (sum_wires (AddMany.wire_ith_carry one_sum i) ≡ pos carry)
unfolding AddMany.wire_ith_op_jth_addend AddMany.wire_ith_carry sum
sum_inputs zero h =
    (4294967295 ∷ 4294967295 ∷ 5 ∷ [], 7, refl, omega arith, (refl, (refl, (refl, tt))), refl)
sum_inputs (suc i) h = absurd (omega arith)

greatest_inputs :
    (i : ℕ)
    → i < 1
    → (x : ℕ) × (y : ℕ) × (z : ℕ) × (x < 2 ^ 32)
      × (y < 2 ^ 32)
      × (z < 2 ^ 32)
      × (greatest_wires (Arithmetic.wire_ith_multiplicand_0 i) ≡ pos x)
      × (greatest_wires (Arithmetic.wire_ith_multiplicand_1 i) ≡ pos y)
      × (greatest_wires (Arithmetic.wire_ith_addend i) ≡ pos z)
      × ArithmeticGenerator.IsInverseAt integers integers_canonical same one_product
          (2 ^ 32 - 1 - (x * y + z) / 2 ^ 32)
unfolding Arithmetic.wire_ith_multiplicand_0 Arithmetic.wire_ith_multiplicand_1
    Arithmetic.wire_ith_addend same
greatest_inputs zero h =
    (4294967295, 4294967295, 0, omega arith, omega arith, omega arith, refl, refl, refl, λ p. refl)
greatest_inputs (suc i) h = absurd (omega arith)

generators-mul_add_u32_example :
    AllZero integers (Arithmetic.eval_unfiltered integers one_product greatest_wires)
unfolding ArithmeticGenerator.generators ArithmeticGenerator.run_once for_ops set_limbs scan_limbs
    integers_canonical to_canonical same Arithmetic.wire_ith_multiplicand_0
    Arithmetic.wire_ith_multiplicand_1 Arithmetic.wire_ith_addend
    Arithmetic.wire_ith_output_low_half Arithmetic.wire_ith_output_high_half
    Arithmetic.wire_ith_inverse Arithmetic.wire_ith_output_jth_limb
generators-mul_add_u32_example =
    generators-mul_add_u32 integers integers_canonical same one_product greatest_wires
      greatest_inputs
      (
        refl,
        (
          refl,
          (
            refl,
            (
              refl,
              (
                refl,
                (
                  refl,
                  (
                    refl,
                    (
                      refl,
                      (
                        refl,
                        (
                          refl,
                          (
                            refl,
                            (
                              refl,
                              (
                                refl,
                                (
                                  refl,
                                  (
                                    refl,
                                    (
                                      refl,
                                      (
                                        refl,
                                        (
                                          refl,
                                          (
                                            refl,
                                            (
                                              refl,
                                              (
                                                refl,
                                                (
                                                  refl,
                                                  (
                                                    refl,
                                                    (
                                                      refl,
                                                      (
                                                        refl,
                                                        (
                                                          refl,
                                                          (
                                                            refl,
                                                            (
                                                            refl,
                                                            (
                                                            refl,
                                                            (
                                                            refl,
                                                            (
                                                            refl,
                                                            (refl, (refl, (refl, (refl, tt)))),
                                                            ),
                                                            ),
                                                            ),
                                                            ),
                                                          ),
                                                        ),
                                                      ),
                                                    ),
                                                  ),
                                                ),
                                              ),
                                            ),
                                          ),
                                        ),
                                      ),
                                    ),
                                  ),
                                ),
                              ),
                            ),
                          ),
                        ),
                      ),
                    ),
                  ),
                ),
              ),
            ),
          ),
        ),
      )

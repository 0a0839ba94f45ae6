-- ===== src/Gates/Examples.antt =====
-- Example gates and wires, with instances of the parameters over the integers.
use mathlib.Core.Bool.{false≢true}
use succinctx.Prelude.{
  ℕ, zero, suc, ◌+◌, ◌-◌, ◌/◌, ◌≡◌, refl, ap, ◌∙◌, Bool, true, false, ◌&&◌, ◌||◌, List, [], ◌∷◌,
  map, arith, ltb, ◌==◌, if◌then◌else◌,
}
use succinctx.Gates.Field.{AllZero, order}
use succinctx.Gates.Integers.{ℤ, pos, negsuc, diff-lt, integers}
use succinctx.Gates.Circuit.{
  ExtensionTarget, constant_extension, add_extension, mul_extension, target_value,
}
use succinctx.Gates.RangeCheck.{Reduce}
use succinctx.Gates.Generator.{Canonical}
use succinctx.Gates.AddMany as AddMany
use succinctx.Gates.Subtraction as Subtraction
use succinctx.Gates.RangeCheck as RangeCheck
use succinctx.Gates.Comparison as Comparison
use succinctx.Gates.Arithmetic as Arithmetic

abbrev pub is_zero : ℤ → Bool
is_zero (pos zero) = true
is_zero (pos (suc n)) = false
is_zero (negsuc n) = false

abbrev pub zeros : List ℤ → Bool
zeros [] = true
zeros (x ∷ xs) = is_zero x && zeros xs

pub zeros-AllZero : (xs : List ℤ) → zeros xs ≡ true → AllZero integers xs
zeros-AllZero [] e = tt
zeros-AllZero (pos zero ∷ xs) e = (refl, zeros-AllZero xs e)
zeros-AllZero (pos (suc n) ∷ xs) e = absurd (false≢true e)
zeros-AllZero (negsuc n ∷ xs) e = absurd (false≢true e)

-- 65536 * 65536 + 0: the high half is 1, its lowest limb is wire 22.
abbrev pub square_wires : ℕ → ℤ
square_wires n = if n == 0 || n == 1 then pos 65536 else if n == 4 || n == 22 then pos 1 else pos 0

abbrev pub one_product : Arithmetic.U32ArithmeticGate
one_product = record { num_ops = 1 }

-- 3 - 5 - 1: the result wraps around, its lowest limb is wire 5.
abbrev pub difference_wires : ℕ → ℤ
difference_wires n =
    if n == 0
    then pos 3
    else if n == 1
    then pos 5
    else if n == 3
    then pos 4294967293
    else if ltb n 6
    then pos 1
    else pos 3

abbrev pub one_difference : Subtraction.U32SubtractionGate
one_difference = record { num_ops = 1 }

-- Two greatest numbers, 5 and the carry 7: the result is 10 and the carry 2.
abbrev pub sum_wires : ℕ → ℤ
sum_wires n =
    if ltb n 2
    then pos 4294967295
    else if n == 2
    then pos 5
    else if n == 3
    then pos 7
    else if n == 4
    then pos 10
    else if ltb n 8 || n == 22
    then pos 2
    else pos 0

abbrev pub one_sum : AddMany.U32AddManyGate
one_sum = record { num_addends = 3; num_ops = 1 }

-- The terms with the powers of the base, by Horner's rule.
unfoldable pub horner : List ℤ → ℤ → ℤ
horner [] base = pos 0
horner (x ∷ xs) base = integers.add (integers.mul (horner xs base) base) x

unfoldable pub horner_circuit : List (ExtensionTarget integers) → ℤ → ExtensionTarget integers
horner_circuit [] base = constant_extension (pos 0)
horner_circuit (t ∷ ts) base =
    add_extension (mul_extension (horner_circuit ts base) (constant_extension base)) t

pub horner_circuit-value :
    (w : ℕ → ℤ) (ts : List (ExtensionTarget integers)) (base : ℤ)
    → target_value integers w (horner_circuit ts base)
      ≡ horner (map (target_value integers w) ts) base
unfolding target_value horner horner_circuit
horner_circuit-value w [] base = refl
horner_circuit-value w (t ∷ ts) base =
    ap (λ a. integers.add (integers.mul a base) (target_value integers w t))
      (horner_circuit-value w ts base)

unfoldable pub integers_reduce : Reduce integers
unfolding horner horner_circuit
integers_reduce = record {
  reduce_with_powers = horner;
  reduce_with_powers_ext_circuit = horner_circuit;
  reduce-nil = λ base. refl;
  reduce-cons = λ x xs base. refl;
  reduce-value = horner_circuit-value;
}

unfoldable pub to_canonical : ℤ → ℕ
to_canonical (pos n) = n
to_canonical (negsuc n) = order - (n + 1)

unfoldable pub integers_canonical : Canonical integers
unfolding to_canonical
integers_canonical = record {
  to_canonical_u64 = to_canonical;
  to-from = λ n h. refl;
  to-sub = λ m n h h'. ap to_canonical (diff-lt (m + 0) (0 + n) (omega arith)) ∙ omega arith;
}

-- 27 has the digits 3, 2 and 1 to the base 4.
abbrev pub digit_wires : ℕ → ℤ
digit_wires n = if n == 0 then pos 27 else if ltb n 4 then pos (4 - n) else pos 0

abbrev pub one_limb : RangeCheck.U32RangeCheckGate
one_limb = record { num_input_limbs = 1 }

-- 6 and 9 in two chunks of two bits: the higher chunks differ by 1.
abbrev pub order_wires : ℕ → ℤ
order_wires n =
    if n == 0
    then pos 6
    else if n == 1
    then pos 9
    else if n == 4 || n == 7
    then pos 2
    else if n == 8
    then negsuc 0
    else if ltb n 7 || n == 9 || n == 14 || n == 16
    then pos 1
    else pos 0

abbrev pub two_chunks : Comparison.ComparisonGate
two_chunks = record { num_bits = 4; num_chunks = 2 }

abbrev pub divide_up : ℕ → ℕ → ℕ
divide_up a b = (a + b - 1) / b

-- The square of the greatest number: the high half is one less than the greatest number.
abbrev pub greatest_wires : ℕ → ℤ
greatest_wires n =
    if ltb n 2
    then pos 4294967295
    else if n == 4
    then pos 4294967294
    else if n == 3 || n == 5 || n == 6
    then pos 1
    else if n == 22
    then pos 2
    else if ltb n 23
    then pos 0
    else pos 3

unfoldable pub same : ℤ → ℤ
same a = a

-- The standard configuration has 135 wires, of which 80 are routed.
abbrev pub standard : Arithmetic.CircuitConfig
standard = record { num_wires = 135; num_routed_wires = 80 }

abbrev pub five_sums : AddMany.U32AddManyGate
five_sums = record { num_addends = 3; num_ops = 5 }

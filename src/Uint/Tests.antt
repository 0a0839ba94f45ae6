-- ===== src/Uint/Tests.antt =====
-- Runs of the integers at concrete inputs.
use native.Mathlib.Nat.{pow-succ'}
use succinctx.Prelude.{
  ℕ, zero, suc, ◌+◌, ◌-◌, ◌*◌, ◌/◌, ◌%◌, ◌^◌, ◌≤◌, ◌<◌, ◌≡◌, refl, sym, ◌↔◌, inl, inr, List, [],
  ◌∷◌, arith, leb, ◌==◌, if◌then◌else◌, ==_iff, Bool-cases, length, ok,
}
use succinctx.Uint.BigUint.{
  add_biguint, sub_biguint, mul_biguint, cmp_biguint, connect_biguint, div_rem_constraints,
  range_check_u32_circuit, rows_loop, row_loop, push_at, carry_loop, add_loop, connect_loop,
  assert_zero_loop, pad_biguints,
}
use succinctx.Uint.Gadgets.{
  list_le_u32_circuit, add_many_gate, add_u32, comparison, list_lte_loop, mul_add_u32,
  add_u32s_with_carry, add_many_u32, sum, mul_u32,
}
use succinctx.Uint.Value.{value, AreLimbs}
use succinctx.Uint.Add.{add_biguint-value}
use succinctx.Uint.Sub.{sub_biguint-value}
use succinctx.Uint.Product.{mul_biguint-value}
use succinctx.Uint.Compare.{cmp_biguint-value}
use succinctx.Uint.DivRem.{div_rem_constraints_iff}
use succinctx.Uint.Generator.{run_once, AreDigits, run_once-div_rem_constraints}
use succinctx.Uint.UintN.{div, rem, copy_limbs}
use succinctx.Uint.DivN.{div-value}

abbrev top : ℕ
top = 2 ^ 32 - 1

abbrev two_limbs : List ℕ
two_limbs = top ∷ 7 ∷ []

abbrev one_limb : List ℕ
one_limb = top ∷ []

abbrev two_limbs-AreLimbs : AreLimbs two_limbs
two_limbs-AreLimbs = (omega arith, (omega arith, tt))

abbrev one_limb-AreLimbs : AreLimbs one_limb
one_limb-AreLimbs = (omega arith, tt)

add_biguint-value_example :
    (r : List ℕ) × (add_biguint two_limbs one_limb ≡ ok r)
    × AreLimbs r
    × (length r ≡ 3)
    × (value r ≡ value two_limbs + value one_limb)
add_biguint-value_example =
    add_biguint-value two_limbs one_limb two_limbs-AreLimbs one_limb-AreLimbs

sub_biguint-value_example :
    (r : List ℕ) × (sub_biguint one_limb two_limbs ≡ ok r)
    × AreLimbs r
    × (length r ≡ 2)
    × (value r ≡ (value one_limb + (2 ^ 32) ^ 2 - value two_limbs) % (2 ^ 32) ^ 2)
sub_biguint-value_example =
    sub_biguint-value one_limb two_limbs one_limb-AreLimbs two_limbs-AreLimbs

mul_biguint-value_example :
    (r : List ℕ) × (mul_biguint two_limbs one_limb ≡ ok r)
    × AreLimbs r
    × (length r ≡ 4)
    × (value r ≡ value two_limbs * value one_limb)
mul_biguint-value_example =
    mul_biguint-value two_limbs one_limb two_limbs-AreLimbs one_limb-AreLimbs (omega arith)

cmp_biguint-value_example :
    cmp_biguint two_limbs one_limb ≡ ok (if leb (value two_limbs) (value one_limb) then 1 else 0)
cmp_biguint-value_example =
    cmp_biguint-value two_limbs one_limb two_limbs-AreLimbs one_limb-AreLimbs

-- 7 * 2 ^ 32 + (2 ^ 32 - 1) = 8 * (2 ^ 32 - 1) + 7
abbrev quotient : List ℕ
quotient = 8 ∷ 0 ∷ []

abbrev remainder : List ℕ
remainder = 7 ∷ []

div_rem_constraints_iff_example :
    (div_rem_constraints two_limbs one_limb quotient remainder ≡ ok tt) ↔ (
      AreLimbs quotient
      × AreLimbs remainder
      × (0 < value one_limb)
      × (value quotient ≡ value two_limbs / value one_limb)
      × (value remainder ≡ value two_limbs % value one_limb))
div_rem_constraints_iff_example =
    div_rem_constraints_iff two_limbs one_limb quotient remainder two_limbs-AreLimbs
      one_limb-AreLimbs (omega arith)

-- The digits in base 2 ^ 32, for numbers whose number of digits is at most `fuel`.
digits : ℕ → ℕ → List ℕ
digits zero v = []
digits (suc fuel) v = if v == 0 then [] else v % 2 ^ 32 ∷ digits fuel (v / 2 ^ 32)

digits-value : (fuel v : ℕ) → v ≤ fuel → value (digits fuel v) ≡ v
unfolding digits value
digits-value zero v h = omega arith
digits-value (suc fuel) v h = elim (Bool-cases (v == 0)) [
  | inl e ↦ rw e (sym ((==_iff v 0).0 e))
  | inr e ↦
      let positive : 0 < v = ground (arith, e) in
      rw e (omega (arith, digits-value fuel (v / 2 ^ 32) (omega arith)))
]

digits-AreLimbs : (fuel v : ℕ) → AreLimbs (digits fuel v)
unfolding digits
digits-AreLimbs zero v = tt
digits-AreLimbs (suc fuel) v = elim (Bool-cases (v == 0)) [
  | inl e ↦ rw e tt
  | inr e ↦ rw e (omega arith, digits-AreLimbs fuel (v / 2 ^ 32))
]

digits_short : (fuel v n : ℕ) → v < (2 ^ 32) ^ n → length (digits fuel v) ≤ n
unfolding digits
digits_short zero v n h = omega arith
digits_short (suc fuel) v zero h = let e : v ≡ 0 = omega arith in rw e (omega arith)
digits_short (suc fuel) v (suc n) h = elim (Bool-cases (v == 0)) [
  | inl e ↦ rw e (omega arith)
  | inr e ↦
      let bound = rw (pow-succ' (2 ^ 32) n) at h in
      rw e (omega (arith, digits_short fuel (v / 2 ^ 32) n (omega (arith, bound))))
]

digits-AreDigits : AreDigits (λ v. digits v v)
digits-AreDigits = record {
  value_digits = λ v. digits-value v v (omega arith);
  limbs_digits = λ v. digits-AreLimbs v v;
  short_digits = λ v n h. digits_short v v n h;
}

run_once-div_rem_constraints_example :
    (q : List ℕ) × (r : List ℕ) × (run_once (λ v. digits v v) two_limbs one_limb 2 1 ≡ ok (q, r))
    × (div_rem_constraints two_limbs one_limb q r ≡ ok tt)
unfolding value
run_once-div_rem_constraints_example =
    run_once-div_rem_constraints (λ v. digits v v) digits-AreDigits two_limbs one_limb
      two_limbs-AreLimbs one_limb-AreLimbs (omega arith) (omega arith)

div_run : div 1 (7 ∷ []) (2 ∷ []) (3 ∷ []) (1 ∷ []) ≡ ok (3 ∷ [])
unfolding div div_rem_constraints mul_biguint add_biguint connect_biguint cmp_biguint copy_limbs
    range_check_u32_circuit rows_loop row_loop push_at carry_loop add_loop connect_loop
    assert_zero_loop pad_biguints list_le_u32_circuit add_many_gate add_u32 comparison list_lte_loop
    mul_add_u32 add_u32s_with_carry add_many_u32 sum mul_u32
div_run = refl

rem_run : rem 1 (7 ∷ []) (2 ∷ []) (3 ∷ []) (1 ∷ []) ≡ ok (1 ∷ [])
unfolding rem div_rem_constraints mul_biguint add_biguint connect_biguint cmp_biguint copy_limbs
    range_check_u32_circuit rows_loop row_loop push_at carry_loop add_loop connect_loop
    assert_zero_loop pad_biguints list_le_u32_circuit add_many_gate add_u32 comparison list_lte_loop
    mul_add_u32 add_u32s_with_carry add_many_u32 sum mul_u32
rem_run = refl

div-value_example :
    (0 < value (2 ∷ [])) × AreLimbs (3 ∷ []) × (value (3 ∷ []) ≡ value (7 ∷ []) / value (2 ∷ []))
div-value_example =
    div-value 1 (7 ∷ []) (2 ∷ []) (3 ∷ []) (1 ∷ []) (omega arith, tt) (omega arith, tt) refl refl
      refl refl (omega arith) (3 ∷ []) div_run

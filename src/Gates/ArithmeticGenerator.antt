-- ===== src/Gates/ArithmeticGenerator.antt =====
-- plonky2x/core/src/frontend/uint/num/u32/gates/arithmetic_u32.rs: `U32ArithmeticGenerator`.
use native.Mathlib.Nat.{mul-le-mul}
use mathlib.Core.Path.{subst}
use succinctx.Prelude.{
  ℕ, ◌+◌, ◌-◌, ◌*◌, ◌/◌, ◌%◌, ◌^◌, ◌≤◌, ◌<◌, ◌≡◌, sym, ap, ap₂, ◌∙◌, inl, inr, List, [], ◌∷◌,
  append-nil, arith, ◌==◌, if◌then◌else◌, ==_iff, Bool-cases,
}
use succinctx.Gates.Field.{
  Field, AllZero, AllZero-append, for_ops, for_ops-All, AllZero-for_ops, sub-eq-zero, from-sub,
}
use succinctx.Gates.Generator.{
  Canonical, AreSet, zero_plus, scan_limbs, scan_limbs-split, set_limbs, set_limbs-digits,
  limbs_loop-set, shift, shift-zero,
}
use succinctx.Gates.Arithmetic.{
  U32ArithmeticGate, num_limbs, op_constraints, eval_unfiltered, wire_ith_multiplicand_0,
  wire_ith_multiplicand_1, wire_ith_addend, wire_ith_output_low_half, wire_ith_output_high_half,
  wire_ith_inverse, wire_ith_output_jth_limb,
}
use succinctx.Gates.ArithmeticSound.{from_mul_add}

module _ (f : Field) (c : Canonical f) (inverse : f.F → f.F) (gate : U32ArithmeticGate) where
  open f use {F, zero_f, one_f, add, sub, mul, from_canonical}

  -- The generator of operation `i`; plonky2's `inverse` is a parameter.
  unfoldable pub run_once : (ℕ → F) → ℕ → List (ℕ × F)
  run_once witness i =
      let multiplicand_0 = witness (wire_ith_multiplicand_0 i) in
      let multiplicand_1 = witness (wire_ith_multiplicand_1 i) in
      let addend = witness (wire_ith_addend i) in
      let output = add (mul multiplicand_0 multiplicand_1) addend in
      let output_u64 = c.to_canonical_u64 output in
      let output_high_u64 = output_u64 / 2 ^ 32 in
      let output_low_u64 = output_u64 % 2 ^ 32 in
      let diff = 2 ^ 32 - 1 - output_high_u64 in
      let inverse_value = if diff == 0 then zero_f else inverse (from_canonical diff) in
      (wire_ith_output_high_half i, from_canonical output_high_u64)
      ∷ (wire_ith_output_low_half i, from_canonical output_low_u64)
      ∷ (wire_ith_inverse i, inverse_value)
      ∷ set_limbs f (wire_ith_output_jth_limb gate i) 0 (scan_limbs f num_limbs output_u64)

  unfoldable pub generators : (ℕ → F) → List (ℕ × F)
  unfolding run_once
  generators witness = for_ops gate.num_ops 0 (run_once witness)

  -- What `inverse` does on a number that is not zero.
  abbrev pub IsInverseAt : ℕ → Type 0
  IsInverseAt n = 0 < n → mul (inverse (from_canonical n)) (from_canonical n) ≡ one_f

  -- The first constraint.
  hi_not_max-zero :
      (n : ℕ)
      → n ≤ (2 ^ 32 - 1) * 2 ^ 32
      → IsInverseAt (2 ^ 32 - 1 - n / 2 ^ 32)
      → let diff = 2 ^ 32 - 1 - n / 2 ^ 32 in
        mul
          (sub
            (mul
              (if diff == 0 then zero_f else inverse (from_canonical diff))
              (sub (from_canonical (2 ^ 32 - 1)) (from_canonical (n / 2 ^ 32))))
            one_f)
          (from_canonical (n % 2 ^ 32))
        ≡ zero_f
  hi_not_max-zero n bound inv = elim (Bool-cases (2 ^ 32 - 1 - n / 2 ^ 32 == 0)) [
    | inl e ↦
        let none : n % 2 ^ 32 ≡ 0 =
          omega (arith, bound, (==_iff (2 ^ 32 - 1 - n / 2 ^ 32) 0).0 e) in
        let diff = 2 ^ 32 - 1 - n / 2 ^ 32 in
        let hi_not_max =
          sub
            (mul (if diff == 0 then zero_f else inverse (from_canonical diff))
              (sub (from_canonical (2 ^ 32 - 1)) (from_canonical (n / 2 ^ 32))))
            one_f in
        ap (λ a. mul hi_not_max a) (ap from_canonical none ∙ f.from_zero) ∙ f.mul_zero hi_not_max
    | inr e ↦
        let some_diff : 0 < 2 ^ 32 - 1 - n / 2 ^ 32 = ground (arith, e) in
        rw (e, from-sub f (2 ^ 32 - 1) (n / 2 ^ 32) (omega (arith, bound)))
          (ap (λ a. mul a (from_canonical (n % 2 ^ 32))) ((sub-eq-zero f _ _).1 (inv some_diff))
            ∙ f.mul_comm zero_f _
            ∙ f.mul_zero _)
  ]

  run_once-AllZero :
      (w : ℕ → F) (i x y z : ℕ)
      → AreSet f w (run_once w i)
      → w (wire_ith_multiplicand_0 i) ≡ from_canonical x
      → w (wire_ith_multiplicand_1 i) ≡ from_canonical y
      → w (wire_ith_addend i) ≡ from_canonical z
      → x < 2 ^ 32
      → y < 2 ^ 32
      → z < 2 ^ 32
      → IsInverseAt (2 ^ 32 - 1 - (x * y + z) / 2 ^ 32)
      → AllZero f (op_constraints f gate w i)
  unfolding run_once op_constraints shift
  run_once-AllZero w i x y z h ex ey ez bx by bz inv =
      let at_wire = wire_ith_output_jth_limb gate i in
      let limb : ℕ → F = λ j. w (at_wire j) in
      let n = x * y + z in
      let l = n % 2 ^ 32 in
      let k = n / 2 ^ 32 in
      let product : x * y ≤ (2 ^ 32 - 1) * (2 ^ 32 - 1) =
        mul-le-mul {n₂ = 2 ^ 32 - 1} {m₂ = 2 ^ 32 - 1} (omega arith) (omega arith) in
      let bound : n ≤ (2 ^ 32 - 1) * 2 ^ 32 = omega (arith, product, bz) in
      let output : add (mul (w (wire_ith_multiplicand_0 i)) (w (wire_ith_multiplicand_1 i)))
            (w (wire_ith_addend i))
          ≡ from_canonical n =
        ap₂ (λ a b. add a b) (ap₂ (λ a b. mul a b) ex ey) ez ∙ sym (from_mul_add f x y z) in
      let value = ap c.to_canonical_u64 output ∙ c.to-from n (omega (arith, bound)) in
      let h' = rw value at h in
      let limbs =
        subst (λ vs. AreSet f w (set_limbs f at_wire 0 vs))
          (scan_limbs-split f 16 16 32 l k n (omega arith) (omega arith) (omega arith))
          (h'.1.1.1) in
      let (lows, after) = set_limbs-digits f w at_wire 16 0 l (scan_limbs f 16 k) limbs in
      let highs =
        (set_limbs-digits f w at_wire 16 16 k [] (
          subst (λ vs. AreSet f w (set_limbs f at_wire 16 vs))
            (sym (append-nil (scan_limbs f 16 k))) after)).0 in
      let no_low : zero_f ≡ from_canonical (shift l 16) =
        sym f.from_zero ∙ ap from_canonical (sym (shift-zero l 16 (omega arith))) in
      let no_high : zero_f ≡ from_canonical (shift k 16) =
        sym f.from_zero ∙ ap from_canonical (sym (shift-zero k 16 (omega (arith, bound)))) in
      let (products, low_limbs, high_limbs) =
        limbs_loop-set f limb 16 32 l k zero_f zero_f
          (λ j b b'. ap limb (sym (zero_plus j)) ∙ lows j b') (λ j b. highs j (omega arith)) no_low
          no_high in
      let combined : add (mul (w (wire_ith_output_high_half i)) (from_canonical (2 ^ 32)))
            (w (wire_ith_output_low_half i))
          ≡ from_canonical n =
        ap₂ (λ a b. add (mul a (from_canonical (2 ^ 32))) b) (h'.0) (h'.1.0)
        ∙ sym (from_mul_add f k (2 ^ 32) l)
        ∙ ap from_canonical (omega arith) in
      (
        ap₂
              (λ a b.
                mul (sub (mul (w (wire_ith_inverse i)) (sub (from_canonical (2 ^ 32 - 1)) a)) one_f)
                  b)
              (h'.0) (h'.1.0)
            ∙ ap
                (λ a.
                  mul (sub (mul a (sub (from_canonical (2 ^ 32 - 1)) (from_canonical k))) one_f)
                    (from_canonical l))
                (h'.1.1.0)
            ∙ hi_not_max-zero n bound inv,
        (
          (sub-eq-zero f _ _).1 (combined ∙ sym output),
          (AllZero-append f _ _).1 (
            products,
            (
              (sub-eq-zero f _ _).1 (low_limbs ∙ sym (h'.1.0)),
              ((sub-eq-zero f _ _).1 (high_limbs ∙ sym (h'.0)), tt),
            ),
          ),
        ),
      )

  -- If the inputs of every operation are three numbers below 2 ^ 32, the other wires hold what the
  -- generators set, and `inverse` gives the inverse of the differences that the generators apply it
  -- to, all constraints of the gate are met.
  pub generators-mul_add_u32 :
      (w : ℕ → F)
      → ((i : ℕ)
          → i < gate.num_ops
          → (x : ℕ) × (y : ℕ) × (z : ℕ) × (x < 2 ^ 32)
            × (y < 2 ^ 32)
            × (z < 2 ^ 32)
            × (w (wire_ith_multiplicand_0 i) ≡ from_canonical x)
            × (w (wire_ith_multiplicand_1 i) ≡ from_canonical y)
            × (w (wire_ith_addend i) ≡ from_canonical z)
            × IsInverseAt (2 ^ 32 - 1 - (x * y + z) / 2 ^ 32))
      → AreSet f w (generators w)
      → AllZero f (eval_unfiltered f gate w)
  unfolding generators eval_unfiltered
  generators-mul_add_u32 w inputs h =
      AllZero-for_ops f gate.num_ops 0 (op_constraints f gate w) (λ k lo hi.
        let (x, y, z, bx, by, bz, ex, ey, ez, inv) = inputs k (omega arith) in
        run_once-AllZero w k x y z
          (for_ops-All (λ p. w p.0 ≡ p.1) gate.num_ops 0 (run_once w) h k lo hi) ex ey ez bx by bz
          inv)

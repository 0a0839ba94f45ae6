-- ===== src/Gates/ArithmeticSound.antt =====
-- The constraints of `U32ArithmeticGate` force its outputs.
use native.Mathlib.Nat.{mul-le-mul}
use succinctx.Prelude.{
  ℕ, ◌+◌, ◌-◌, ◌*◌, ◌^◌, ◌≤◌, ◌<◌, ◌≡◌, sym, ap, ap₂, ◌∙◌, ◌≢◌, ◌⊎◌, inl, inr, List, [], ◌∷◌, arith,
  ◌==◌, ==_iff, Bool-cases,
}
use succinctx.Gates.Field.{
  Field, IsDomain, order, AllZero, AllZero-append, for_ops-AllZero, sub-eq-zero,
}
use succinctx.Gates.Limbs.{limbs_loop, one-ne-zero}
use succinctx.Gates.LimbsSound.{limbs_loop_sound}
use succinctx.Gates.Arithmetic.{
  U32ArithmeticGate, op_constraints, eval_unfiltered, wire_ith_multiplicand_0,
  wire_ith_multiplicand_1, wire_ith_addend, wire_ith_output_low_half, wire_ith_output_high_half,
  wire_ith_inverse, wire_ith_output_jth_limb,
}
use succinctx.Uint.Gadgets.{mul_add_u32}

module _ (f : Field) where
  open f use {add, mul, from_canonical}

  pub from_mul_add :
      (x y z : ℕ)
      → from_canonical (x * y + z)
        ≡ add (mul (from_canonical x) (from_canonical y)) (from_canonical z)
  from_mul_add x y z = f.from_add (x * y) z ∙ ap (λ a. add a (from_canonical z)) (f.from_mul x y)

module _ (f : Field) (d : IsDomain f) where
  open f use {F, zero_f, one_f, add, sub, mul, from_canonical}

  -- The first constraint: the high half is the greatest number only if the low half is 0.
  canonical :
      (l h : ℕ) (inverse : F)
      → l < 2 ^ 32
      → mul
          (sub (mul inverse (sub (from_canonical (2 ^ 32 - 1)) (from_canonical h))) one_f)
          (from_canonical l)
        ≡ zero_f
      → (h ≢ 2 ^ 32 - 1) ⊎ (l ≡ 0)
  canonical l h inverse bound e = elim (Bool-cases (h == 2 ^ 32 - 1)) [
    | inr e' ↦ inl (ground (arith, e'))
    | inl e' ↦
        let same : h ≡ 2 ^ 32 - 1 = (==_iff h (2 ^ 32 - 1)).0 e' in
        elim (d.factor _ (from_canonical l) e) [
          | inr low ↦ inr (d.injective l 0 (omega arith) (omega arith) (low ∙ sym f.from_zero))
          | inl not_max ↦
              let diff : sub (from_canonical (2 ^ 32 - 1)) (from_canonical h) ≡ zero_f =
                (sub-eq-zero f _ _).1 (ap from_canonical (sym same)) in
              let one : mul inverse (sub (from_canonical (2 ^ 32 - 1)) (from_canonical h)) ≡ one_f =
                (sub-eq-zero f _ _).0 not_max in
              absurd (one-ne-zero f d (sym one ∙ ap (λ a. mul inverse a) diff ∙ f.mul_zero inverse))
        ]
  ]

  -- The second constraint: an equation of numbers, since both sides are below the order.
  combined :
      (x y z l h : ℕ)
      → x < 2 ^ 32
      → y < 2 ^ 32
      → z < 2 ^ 32
      → l < 2 ^ 32
      → h < 2 ^ 32
      → (h ≢ 2 ^ 32 - 1) ⊎ (l ≡ 0)
      → add (mul (from_canonical h) (from_canonical (2 ^ 32))) (from_canonical l)
        ≡ add (mul (from_canonical x) (from_canonical y)) (from_canonical z)
      → h * 2 ^ 32 + l ≡ x * y + z
  combined x y z l h bx by bz bl bh c e =
      let product : x * y ≤ (2 ^ 32 - 1) * (2 ^ 32 - 1) =
        mul-le-mul {n₂ = 2 ^ 32 - 1} {m₂ = 2 ^ 32 - 1} (omega arith) (omega arith) in
      let below : h * 2 ^ 32 + l < order = elim c [
        | inl e' ↦ ground (arith, e')
        | inr e' ↦ omega arith
      ] in
      d.injective (h * 2 ^ 32 + l) (x * y + z) below (omega arith)
        (from_mul_add f h (2 ^ 32) l ∙ e ∙ sym (from_mul_add f x y z))

  -- Operation `i`: the wires of the outputs are the halves of the result.
  op_constraints_sound :
      (gate : U32ArithmeticGate) (w : ℕ → F) (i x y z : ℕ)
      → AllZero f (op_constraints f gate w i)
      → w (wire_ith_multiplicand_0 i) ≡ from_canonical x
      → w (wire_ith_multiplicand_1 i) ≡ from_canonical y
      → w (wire_ith_addend i) ≡ from_canonical z
      → x < 2 ^ 32
      → y < 2 ^ 32
      → z < 2 ^ 32
      → (w (wire_ith_output_low_half i) ≡ from_canonical (mul_add_u32 x y z).0)
        × (w (wire_ith_output_high_half i) ≡ from_canonical (mul_add_u32 x y z).1)
  unfolding op_constraints mul_add_u32
  op_constraints_sound gate w i x y z c ex ey ez bx by bz =
      let limb : ℕ → F = λ j. w (wire_ith_output_jth_limb gate i j) in
      let out : List F × F × F = limbs_loop f limb 16 32 zero_f zero_f in
      let w_low = w (wire_ith_output_low_half i) in
      let w_high = w (wire_ith_output_high_half i) in
      let inverse = w (wire_ith_inverse i) in
      let (products, ends) =
        (AllZero-append f out.0 (sub out.1 w_low ∷ sub out.2 w_high ∷ [])).0 (c.1.1) in
      let (l, h, el, eh, bl, bh) =
        limbs_loop_sound f d limb 16 32 0 0 0 0 zero_f zero_f (sym f.from_zero) (sym f.from_zero)
          (omega arith) (omega arith) products in
      let low : w_low ≡ from_canonical l = sym ((sub-eq-zero f out.1 w_low).0 (ends.0)) ∙ el in
      let high : w_high ≡ from_canonical h = sym ((sub-eq-zero f out.2 w_high).0 (ends.1.0)) ∙ eh in
      let not_max = canonical l h inverse bl (
        ap₂ (λ a b. mul (sub (mul inverse (sub (from_canonical (2 ^ 32 - 1)) a)) one_f) b)
          (sym high) (sym low)
        ∙ c.0) in
      let equation = combined x y z l h bx by bz bl bh not_max (
        ap₂ (λ a b. add (mul a (from_canonical (2 ^ 32))) b) (sym high) (sym low)
        ∙ (sub-eq-zero f _ _).0 (c.1.0)
        ∙ ap₂ (λ a b. add (mul a b) (w (wire_ith_addend i))) ex ey
        ∙ ap (λ a. add (mul (from_canonical x) (from_canonical y)) a) ez) in
      (
        low ∙ ap from_canonical (omega (arith, equation, bl)),
        high ∙ ap from_canonical (omega (arith, equation, bl)),
      )

  -- For every operation of the gate whose three inputs are numbers below 2 ^ 32: if all constraints
  -- of the gate are met, whatever the prover puts on the other wires, the output wires hold the low
  -- and the high half of x * y + z.
  pub eval_unfiltered-mul_add_u32 :
      (gate : U32ArithmeticGate) (w : ℕ → F) (i x y z : ℕ)
      → AllZero f (eval_unfiltered f gate w)
      → i < gate.num_ops
      → w (wire_ith_multiplicand_0 i) ≡ from_canonical x
      → w (wire_ith_multiplicand_1 i) ≡ from_canonical y
      → w (wire_ith_addend i) ≡ from_canonical z
      → x < 2 ^ 32
      → y < 2 ^ 32
      → z < 2 ^ 32
      → (w (wire_ith_output_low_half i) ≡ from_canonical (mul_add_u32 x y z).0)
        × (w (wire_ith_output_high_half i) ≡ from_canonical (mul_add_u32 x y z).1)
  unfolding eval_unfiltered
  eval_unfiltered-mul_add_u32 gate w i x y z c h =
      op_constraints_sound gate w i x y z
        (for_ops-AllZero f gate.num_ops 0 (op_constraints f gate w) c i (omega arith) (omega arith))

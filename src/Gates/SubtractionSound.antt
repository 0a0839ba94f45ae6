-- ===== src/Gates/SubtractionSound.antt =====
-- The constraints of `U32SubtractionGate` force its outputs.
use succinctx.Prelude.{
  ℕ, zero, suc, ◌+◌, ◌*◌, ◌^◌, ◌≤◌, ◌<◌, ◌≡◌, refl, sym, ap, ap₂, ◌∙◌, inl, inr, List, [], ◌∷◌,
  arith, ltb, ltb→lt, lt→ltb, ltb_false→le, Bool-cases,
}
use succinctx.Gates.Field.{
  Field, IsDomain, AllZero, AllZero-append, for_ops-AllZero, sub-eq-zero, add_right_comm,
}
use succinctx.Gates.Limbs.{limbs_loop}
use succinctx.Gates.LimbsSound.{limbs_loop_sound}
use succinctx.Gates.Subtraction.{
  U32SubtractionGate, combined_loop, op_constraints, eval_unfiltered, wire_ith_input_x,
  wire_ith_input_y, wire_ith_input_borrow, wire_ith_output_result, wire_ith_output_borrow,
  wire_ith_output_jth_limb,
}
use succinctx.Uint.Gadgets.{sub_u32}

module _ (f : Field) where
  open f use {F, add, mul, from_canonical}

  -- The loop is the one of the other gates with all limbs below the midpoint.
  pub combined_loop_lem :
      (limb : ℕ → F) (midpoint left : ℕ) (combined other : F)
      → left ≤ midpoint
      → combined_loop f limb left combined ≡ (
        (limbs_loop f limb midpoint left combined other).0,
        (limbs_loop f limb midpoint left combined other).1,
      )
  unfolding combined_loop limbs_loop
  combined_loop_lem limb midpoint zero combined other h = refl
  combined_loop_lem limb midpoint (suc left) combined other h = rw (
    lt→ltb left midpoint (omega arith),
    combined_loop_lem limb midpoint left (add (mul (from_canonical 4) combined) (limb left)) other
        (omega arith),
  )

module _ (f : Field) (d : IsDomain f) where
  open f use {F, zero_f, one_f, add, sub, mul, from_canonical}

  -- A wire whose product with its complement is zero holds a bit.
  pub bit_sound :
      (b : F) → mul b (sub one_f b) ≡ zero_f → (n : ℕ) × (n < 2) × (b ≡ from_canonical n)
  bit_sound b e = elim (d.factor b (sub one_f b) e) [
    | inl e' ↦ (0, omega arith, e' ∙ sym f.from_zero)
    | inr e' ↦ (1, omega arith, sym ((sub-eq-zero f one_f b).0 e') ∙ sym f.from_one)
  ]

  -- The first constraint without subtraction.
  move : (x y b r c : F) → r ≡ add (sub (sub x y) b) c → add (add r b) y ≡ add x c
  move x y b r c e =
      ap (λ a. add (add a b) y) e
      ∙ ap (λ a. add a y) (add_right_comm f (sub (sub x y) b) c b)
      ∙ ap (λ a. add (add a c) y) (f.sub_add (sub x y) b)
      ∙ add_right_comm f (sub x y) c y
      ∙ ap (λ a. add a c) (f.sub_add x y)

  -- The same equation on numbers.
  combined :
      (x y b r c : ℕ)
      → x < 2 ^ 32
      → y < 2 ^ 32
      → b < 2
      → r < 2 ^ 32
      → c < 2
      → from_canonical r
        ≡ add
            (sub (sub (from_canonical x) (from_canonical y)) (from_canonical b))
            (mul (from_canonical (2 ^ 32)) (from_canonical c))
      → r + b + y ≡ x + 2 ^ 32 * c
  combined x y b r c bx by bb br bc e =
      d.injective (r + b + y) (x + 2 ^ 32 * c) (omega arith) (omega arith) (
        f.from_add (r + b) y
        ∙ ap (λ a. add a (from_canonical y)) (f.from_add r b)
        ∙ move (from_canonical x) (from_canonical y) (from_canonical b) (from_canonical r) _ e
        ∙ ap (λ a. add (from_canonical x) a) (sym (f.from_mul (2 ^ 32) c))
        ∙ sym (f.from_add x (2 ^ 32 * c)))

  sub_u32_unique :
      (x y b r c : ℕ)
      → x < 2 ^ 32
      → y < 2 ^ 32
      → b < 2
      → r < 2 ^ 32
      → c < 2
      → r + b + y ≡ x + 2 ^ 32 * c
      → (r ≡ (sub_u32 x y b).0) × (c ≡ (sub_u32 x y b).1)
  unfolding sub_u32
  sub_u32_unique x y b r c bx by bb br bc e = elim (Bool-cases (ltb x (y + b))) [
    | inl e' ↦ let h = ltb→lt x (y + b) e' in rw e' (omega (arith, e, h), omega (arith, e, h))
    | inr e' ↦ let h = ltb_false→le x (y + b) e' in rw e' (omega (arith, e, h), omega (arith, e, h))
  ]

  op_constraints_sound :
      (gate : U32SubtractionGate) (w : ℕ → F) (i x y b : ℕ)
      → AllZero f (op_constraints f gate w i)
      → w (wire_ith_input_x i) ≡ from_canonical x
      → w (wire_ith_input_y i) ≡ from_canonical y
      → w (wire_ith_input_borrow i) ≡ from_canonical b
      → x < 2 ^ 32
      → y < 2 ^ 32
      → b < 2
      → (w (wire_ith_output_result i) ≡ from_canonical (sub_u32 x y b).0)
        × (w (wire_ith_output_borrow i) ≡ from_canonical (sub_u32 x y b).1)
  unfolding op_constraints
  op_constraints_sound gate w i x y b z ex ey eb bx by bb =
      let limb : ℕ → F = λ j. w (wire_ith_output_jth_limb gate i j) in
      let w_result = w (wire_ith_output_result i) in
      let w_borrow = w (wire_ith_output_borrow i) in
      let out : List F × F × F = limbs_loop f limb 16 16 zero_f zero_f in
      let z' = rw (combined_loop_lem f limb 16 16 zero_f zero_f (omega arith)) at (z.1) in
      let (products, ends) =
        (AllZero-append f out.0 (sub out.1 w_result ∷ mul w_borrow (sub one_f w_borrow) ∷ [])).0
          z' in
      let (r, h, er, eh, br, bh) =
        limbs_loop_sound f d limb 16 16 0 0 0 0 zero_f zero_f (sym f.from_zero) (sym f.from_zero)
          (omega arith) (omega arith) products in
      let result : w_result ≡ from_canonical r =
        sym ((sub-eq-zero f out.1 w_result).0 (ends.0)) ∙ er in
      let (c, bc, borrow) = bit_sound w_borrow (ends.1.0) in
      let equation = combined x y b r c bx by bb br bc (
        sym result
        ∙ (sub-eq-zero f _ _).0 (z.0)
        ∙ ap₂ (λ a a'. add a (mul (from_canonical (2 ^ 32)) a'))
            (ap₂ (λ a a'. sub a a') (ap₂ (λ a a'. sub a a') ex ey) eb) borrow) in
      let (same, same') = sub_u32_unique x y b r c bx by bb br bc equation in
      (result ∙ ap from_canonical same, borrow ∙ ap from_canonical same')

  -- For every operation of the gate whose inputs x and y are numbers below 2 ^ 32 and whose borrow is
  -- a bit: if all constraints of the gate are met, whatever the prover puts on the other wires, the
  -- output wires hold x - y - borrow, wrapped around, and the borrow out.
  pub eval_unfiltered-sub_u32 :
      (gate : U32SubtractionGate) (w : ℕ → F) (i x y b : ℕ)
      → AllZero f (eval_unfiltered f gate w)
      → i < gate.num_ops
      → w (wire_ith_input_x i) ≡ from_canonical x
      → w (wire_ith_input_y i) ≡ from_canonical y
      → w (wire_ith_input_borrow i) ≡ from_canonical b
      → x < 2 ^ 32
      → y < 2 ^ 32
      → b < 2
      → (w (wire_ith_output_result i) ≡ from_canonical (sub_u32 x y b).0)
        × (w (wire_ith_output_borrow i) ≡ from_canonical (sub_u32 x y b).1)
  unfolding eval_unfiltered
  eval_unfiltered-sub_u32 gate w i x y b z h =
      op_constraints_sound gate w i x y b
        (for_ops-AllZero f gate.num_ops 0 (op_constraints f gate w) z i (omega arith) (omega arith))

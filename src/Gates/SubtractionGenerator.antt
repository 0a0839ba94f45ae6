-- ===== src/Gates/SubtractionGenerator.antt =====
-- plonky2x/core/src/frontend/uint/num/u32/gates/subtraction_u32.rs: `U32SubtractionGenerator`.
use mathlib.Core.Path.{subst}
use succinctx.Prelude.{
  ℕ, ◌+◌, ◌-◌, ◌^◌, ◌≤◌, ◌<◌, ◌≡◌, refl, sym, ap, ◌∙◌, inl, inr, List, [], ◌∷◌, ◌++◌, append-nil,
  arith, ltb, if◌then◌else◌, ltb→lt, lt→ltb, ltb_false→le, le→ltb_false, Bool-cases,
}
use succinctx.Gates.Field.{
  Field, order, AllZero, AllZero-append, for_ops, for_ops-All, AllZero-for_ops, sub-eq-zero,
  add_right_comm, from-sub,
}
use succinctx.Gates.Generator.{
  Canonical, AreSet, zero_plus, scan_limbs, set_limbs, set_limbs-digits, limbs_loop-set, shift,
  shift-zero,
}
use succinctx.Gates.Subtraction.{
  U32SubtractionGate, num_limbs, op_constraints, eval_unfiltered, wire_ith_input_x,
  wire_ith_input_y, wire_ith_input_borrow, wire_ith_output_result, wire_ith_output_borrow,
  wire_ith_output_jth_limb,
}
use succinctx.Gates.SubtractionSound.{combined_loop_lem}

module _ (f : Field) (c : Canonical f) (gate : U32SubtractionGate) where
  open f use {F, zero_f, one_f, add, sub, mul, from_canonical}

  -- The generator of operation `i`.
  unfoldable pub run_once : (ℕ → F) → ℕ → List (ℕ × F)
  run_once witness i =
      let input_x = witness (wire_ith_input_x i) in
      let input_y = witness (wire_ith_input_y i) in
      let input_borrow = witness (wire_ith_input_borrow i) in
      let result_initial = sub (sub input_x input_y) input_borrow in
      let result_initial_u64 = c.to_canonical_u64 result_initial in
      let output_borrow = if ltb (2 ^ 32) result_initial_u64 then one_f else zero_f in
      let base = from_canonical (2 ^ 32) in
      let output_result = add result_initial (mul base output_borrow) in
      let output_result_u64 = c.to_canonical_u64 output_result in
      (wire_ith_output_result i, output_result)
      ∷ (wire_ith_output_borrow i, output_borrow)
      ∷ set_limbs f (wire_ith_output_jth_limb gate i) 0 (scan_limbs f num_limbs output_result_u64)

  unfoldable pub generators : (ℕ → F) → List (ℕ × F)
  unfolding run_once
  generators witness = for_ops gate.num_ops 0 (run_once witness)

  -- x - (y + b).
  sub-sub : (x y b : F) → sub (sub x y) b ≡ sub x (add y b)
  sub-sub x y b =
      sym (f.add_sub (sub (sub x y) b) (add y b))
      ∙ ap (λ a. sub a (add y b))
          (sym (f.add_assoc (sub (sub x y) b) y b)
            ∙ add_right_comm f (sub (sub x y) b) y b
            ∙ ap (λ a. add a y) (f.sub_add (sub x y) b)
            ∙ f.sub_add x y)

  -- A difference to which the base is added.
  wrap-around :
      (x s : ℕ)
      → s ≤ 2 ^ 32
      → add (sub (from_canonical x) (from_canonical s)) (mul (from_canonical (2 ^ 32)) one_f)
        ≡ from_canonical (x + 2 ^ 32 - s)
  wrap-around x s h =
      ap (λ a. add (sub (from_canonical x) (from_canonical s)) a)
        (f.mul_comm (from_canonical (2 ^ 32)) one_f ∙ f.one_mul (from_canonical (2 ^ 32)))
      ∙ sym (f.add_sub _ (from_canonical s))
      ∙ ap (λ a. sub a (from_canonical s))
          (add_right_comm f (sub (from_canonical x) (from_canonical s)) (from_canonical (2 ^ 32))
              (from_canonical s)
            ∙ ap (λ a. add a (from_canonical (2 ^ 32)))
                (f.sub_add (from_canonical x) (from_canonical s))
            ∙ sym (f.from_add x (2 ^ 32)))
      ∙ from-sub f (x + 2 ^ 32) s (omega (arith, h))

  -- The borrow, and the number that the result is.
  borrow-set :
      (x y b : ℕ)
      → x < 2 ^ 32
      → y < 2 ^ 32
      → b < 2
      → let initial = sub (sub (from_canonical x) (from_canonical y)) (from_canonical b) in
        let borrow = if ltb (2 ^ 32) (c.to_canonical_u64 initial) then one_f else zero_f in
        (mul borrow (sub one_f borrow) ≡ zero_f)
        × ((r : ℕ) × (r < 2 ^ 32)
            × (add initial (mul (from_canonical (2 ^ 32)) borrow) ≡ from_canonical r))
  borrow-set x y b bx by bb =
      let flat : sub (sub (from_canonical x) (from_canonical y)) (from_canonical b)
          ≡ sub (from_canonical x) (from_canonical (y + b)) =
        sub-sub (from_canonical x) (from_canonical y) (from_canonical b)
        ∙ ap (λ a. sub (from_canonical x) a) (sym (f.from_add y b)) in
      rw flat (elim (Bool-cases (ltb x (y + b))) [
        | inl e ↦
            let h = ltb→lt x (y + b) e in
            rw
              (
                c.to-sub x (y + b) h (omega (arith, by, bb)),
                lt→ltb (2 ^ 32) (order + x - (y + b)) (omega (arith, by, bb)),
              )
              (
                ap (λ a. mul one_f a) ((sub-eq-zero f one_f one_f).1 refl) ∙ f.mul_zero one_f,
                (
                  x + 2 ^ 32 - (y + b),
                  omega (arith, h),
                  wrap-around x (y + b) (omega (arith, by, bb)),
                ),
              )
        | inr e ↦
            let h = ltb_false→le x (y + b) e in
            rw
              (
                from-sub f x (y + b) h,
                c.to-from (x - (y + b)) (omega (arith, bx)),
                le→ltb_false (2 ^ 32) (x - (y + b)) (omega (arith, bx)),
              )
              (
                f.mul_comm zero_f (sub one_f zero_f) ∙ f.mul_zero (sub one_f zero_f),
                (
                  x - (y + b),
                  omega (arith, bx),
                  ap (λ a. add (from_canonical (x - (y + b))) a)
                        (f.mul_zero (from_canonical (2 ^ 32)))
                      ∙ f.add_comm _ zero_f
                      ∙ f.zero_add _,
                ),
              )
      ])

  run_once-AllZero :
      (w : ℕ → F) (i x y b : ℕ)
      → AreSet f w (run_once w i)
      → w (wire_ith_input_x i) ≡ from_canonical x
      → w (wire_ith_input_y i) ≡ from_canonical y
      → w (wire_ith_input_borrow i) ≡ from_canonical b
      → x < 2 ^ 32
      → y < 2 ^ 32
      → b < 2
      → AllZero f (op_constraints f gate w i)
  unfolding run_once op_constraints shift
  run_once-AllZero w i x y b h ex ey eb bx by bb =
      let h' = rw (ex, ey, eb) at h in
      let initial = sub (sub (from_canonical x) (from_canonical y)) (from_canonical b) in
      let borrow = if ltb (2 ^ 32) (c.to_canonical_u64 initial) then one_f else zero_f in
      let limb : ℕ → F = λ j. w (wire_ith_output_jth_limb gate i j) in
      let (bit, (r, br, er)) = borrow-set x y b bx by bb in
      let value : c.to_canonical_u64 (add initial (mul (from_canonical (2 ^ 32)) borrow)) ≡ r =
        ap c.to_canonical_u64 er ∙ c.to-from r (omega (arith, br)) in
      let limbs : AreSet f w
          (set_limbs f (wire_ith_output_jth_limb gate i) 0 (scan_limbs f 16 r ++ [])) =
        subst (λ vs. AreSet f w (set_limbs f (wire_ith_output_jth_limb gate i) 0 vs))
          (ap (scan_limbs f 16) value ∙ sym (append-nil (scan_limbs f 16 r))) (h'.1.1) in
      let digits = (set_limbs-digits f w (wire_ith_output_jth_limb gate i) 16 0 r [] limbs).0 in
      let none : zero_f ≡ from_canonical (shift r 16) =
        sym f.from_zero ∙ ap from_canonical (sym (shift-zero r 16 (omega (arith, br)))) in
      let (products, combined, other) =
        limbs_loop-set f limb 16 16 r 0 zero_f zero_f
          (λ k l l'. ap limb (sym (zero_plus k)) ∙ digits k l) (λ k l. absurd (omega arith)) none
          (sym f.from_zero) in
      let result : w (wire_ith_output_result i) ≡ from_canonical r = h'.0 ∙ er in
      rw (combined_loop_lem f limb 16 16 zero_f zero_f (omega arith), ex, ey, eb, h'.1.0)
        (
          (sub-eq-zero f _ _).1 h'.0,
          (AllZero-append f _ _).1
              (products, ((sub-eq-zero f _ _).1 (combined ∙ sym result), (bit, tt))),
        )

  -- If the inputs of every operation are two numbers below 2 ^ 32 and a bit, and the other wires hold
  -- what the generators set, all constraints of the gate are met.
  pub generators-sub_u32 :
      (w : ℕ → F)
      → ((i : ℕ)
          → i < gate.num_ops
          → (x : ℕ) × (y : ℕ) × (b : ℕ) × (x < 2 ^ 32)
            × (y < 2 ^ 32)
            × (b < 2)
            × (w (wire_ith_input_x i) ≡ from_canonical x)
            × (w (wire_ith_input_y i) ≡ from_canonical y)
            × (w (wire_ith_input_borrow i) ≡ from_canonical b))
      → AreSet f w (generators w)
      → AllZero f (eval_unfiltered f gate w)
  unfolding generators eval_unfiltered
  generators-sub_u32 w inputs h =
      AllZero-for_ops f gate.num_ops 0 (op_constraints f gate w) (λ k lo hi.
        let (x, y, b, bx, by, bb, ex, ey, eb) = inputs k (omega arith) in
        run_once-AllZero w k x y b
          (for_ops-All (λ p. w p.0 ≡ p.1) gate.num_ops 0 (run_once w) h k lo hi) ex ey eb bx by bb)

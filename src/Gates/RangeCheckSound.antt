-- ===== src/Gates/RangeCheckSound.antt =====
-- The constraints of `U32RangeCheckGate` force its input limbs below 2 ^ 32.
use native.Mathlib.Nat.{pow-succ'}
use succinctx.Prelude.{ℕ, zero, suc, ◌+◌, ◌*◌, ◌^◌, ◌<◌, ◌≡◌, sym, ap, ◌∙◌, map, arith}
use succinctx.Gates.Field.{Field, IsDomain, AllZero, for_ops-AllZero, sub-eq-zero}
use succinctx.Gates.Limbs.{range_product, range_product_sound, from-limb}
use succinctx.Gates.AddMany.{collect}
use succinctx.Gates.RangeCheck.{
  Reduce, U32RangeCheckGate, limb_constraints, eval_unfiltered, wire_ith_input_limb,
  wire_ith_input_limb_jth_aux_limb,
}

module _ (f : Field) (r : Reduce f) (d : IsDomain f) where
  open f use {F, zero_f, one_f, add, sub, mul, from_canonical}

  -- Limbs that meet their constraints are the digits of a number.
  reduce_sound :
      (limb : ℕ → F) (left j : ℕ)
      → AllZero f (map (range_product f) (collect limb left j))
      → (n : ℕ) × (n < 4 ^ left)
        × (r.reduce_with_powers (collect limb left j) (from_canonical 4) ≡ from_canonical n)
  unfolding collect
  reduce_sound limb zero j z = (0, omega arith, r.reduce-nil (from_canonical 4) ∙ sym f.from_zero)
  reduce_sound limb (suc left) j z =
      let (k, bk, ek) = range_product_sound f d (limb j) z.0 in
      let (n, bn, en) = reduce_sound limb left (j + 1) z.1 in
      let p : 4 ^ suc left ≡ 4 * 4 ^ left = pow-succ' 4 left in
      (
        4 * n + k,
        omega (arith, p),
        r.reduce-cons (limb j) (collect limb left (j + 1)) (from_canonical 4)
            ∙ ap (λ a. add a (limb j)) (f.mul_comm _ (from_canonical 4))
            ∙ from-limb f n k en ek,
      )

  limb_constraints_sound :
      (gate : U32RangeCheckGate) (w : ℕ → F) (i : ℕ)
      → AllZero f (limb_constraints f r gate w i)
      → (n : ℕ) × (n < 2 ^ 32) × (w (wire_ith_input_limb i) ≡ from_canonical n)
  unfolding limb_constraints
  limb_constraints_sound gate w i z =
      let (n, bn, en) =
        reduce_sound (λ j. w (wire_ith_input_limb_jth_aux_limb gate i j)) 16 0 z.1 in
      (n, omega (arith, bn), sym ((sub-eq-zero f _ _).0 (z.0)) ∙ en)

  -- If all constraints of the gate are met, whatever the prover puts on the other wires, every input
  -- wire holds a number below 2 ^ 32.
  pub eval_unfiltered-lt :
      (gate : U32RangeCheckGate) (w : ℕ → F) (i : ℕ)
      → AllZero f (eval_unfiltered f r gate w)
      → i < gate.num_input_limbs
      → (n : ℕ) × (n < 2 ^ 32) × (w (wire_ith_input_limb i) ≡ from_canonical n)
  unfolding eval_unfiltered
  eval_unfiltered-lt gate w i z h = limb_constraints_sound gate w i (
      for_ops-AllZero f gate.num_input_limbs 0 (limb_constraints f r gate w) z i (omega arith)
        (omega arith))

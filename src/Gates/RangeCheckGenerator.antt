-- ===== src/Gates/RangeCheckGenerator.antt =====
-- plonky2x/core/src/frontend/uint/num/u32/gates/range_check_u32.rs: `U32RangeCheckGenerator`, which
-- finds values that meet the constraints.
use native.Mathlib.Nat.{pow-succ'}
use succinctx.Prelude.{
  ℕ, zero, suc, ◌+◌, ◌*◌, ◌/◌, ◌%◌, ◌^◌, ◌<◌, ◌≡◌, refl, sym, ap, ap₂, ◌∙◌, List, [], ◌∷◌, map,
  arith,
}
use succinctx.Gates.Field.{Field, AllZero, for_ops, for_ops-All, AllZero-for_ops, sub-eq-zero}
use succinctx.Gates.Limbs.{range_product, from-limb}
use succinctx.Gates.Generator.{Canonical, AreSet, scan_limbs, range_product-zero}
use succinctx.Gates.AddMany.{collect}
use succinctx.Gates.RangeCheck.{
  Reduce, U32RangeCheckGate, aux_limbs_per_input_limb, limb_constraints, eval_unfiltered,
  wire_ith_input_limb, wire_ith_input_limb_jth_aux_limb,
}

-- The wires that have values, one after the other, while both lists last.
unfoldable pub zip {ℓ κ} : {A : Type ℓ} {B : Type κ} → List A → List B → List (A × B)
zip [] ys = []
zip (x ∷ xs) [] = []
zip (x ∷ xs) (y ∷ ys) = (x, y) ∷ zip xs ys

module _ (f : Field) where
  open f use {F, zero_f, one_f, add, sub, mul, from_canonical}

  module _ (c : Canonical f) (gate : U32RangeCheckGate) where
    unfoldable pub limb_generator : (ℕ → F) → ℕ → List (ℕ × F)
    unfolding zip scan_limbs
    limb_generator witness i =
        let sum_value = c.to_canonical_u64 (witness (wire_ith_input_limb i)) % 2 ^ 32 in
        zip (collect (λ j. wire_ith_input_limb_jth_aux_limb gate i j) aux_limbs_per_input_limb 0)
          (scan_limbs f aux_limbs_per_input_limb sum_value)

    unfoldable pub run_once : (ℕ → F) → List (ℕ × F)
    unfolding limb_generator
    run_once witness = for_ops gate.num_input_limbs 0 (limb_generator witness)

  scan_limbs-AllZero : (left n : ℕ) → AllZero f (map (range_product f) (scan_limbs f left n))
  unfolding scan_limbs
  scan_limbs-AllZero zero n = tt
  scan_limbs-AllZero (suc left) n =
      (range_product-zero f (n % 4) (omega arith), scan_limbs-AllZero left (n / 4))

  module _ (r : Reduce f) where
    reduce-scan_limbs :
        (left n : ℕ)
        → n < 4 ^ left
        → r.reduce_with_powers (scan_limbs f left n) (from_canonical 4) ≡ from_canonical n
    unfolding scan_limbs
    reduce-scan_limbs zero n h =
        r.reduce-nil (from_canonical 4) ∙ sym f.from_zero ∙ ap from_canonical (omega arith)
    reduce-scan_limbs (suc left) n h =
        let p : 4 ^ suc left ≡ 4 * 4 ^ left = pow-succ' 4 left in
        r.reduce-cons (from_canonical (n % 4)) (scan_limbs f left (n / 4)) (from_canonical 4)
        ∙ ap (λ a. add a (from_canonical (n % 4))) (f.mul_comm _ (from_canonical 4))
        ∙ from-limb f (n / 4) (n % 4) (reduce-scan_limbs left (n / 4) (omega (arith, p))) refl
        ∙ ap from_canonical (omega arith)

  -- What is set is what is read back.
  collect-scan_limbs :
      (w : ℕ → F) (at_wire : ℕ → ℕ) (left j n : ℕ)
      → AreSet f w (zip (collect at_wire left j) (scan_limbs f left n))
      → collect (λ k. w (at_wire k)) left j ≡ scan_limbs f left n
  unfolding collect scan_limbs zip
  collect-scan_limbs w at_wire zero j n h = refl
  collect-scan_limbs w at_wire (suc left) j n h =
      ap₂ (λ x xs. x ∷ xs) (h.0) (collect-scan_limbs w at_wire left (j + 1) (n / 4) h.1)

  module _ (r : Reduce f) (c : Canonical f) (gate : U32RangeCheckGate) where
    limb_generator-AllZero :
        (w : ℕ → F) (i n : ℕ)
        → AreSet f w (limb_generator c gate w i)
        → n < 2 ^ 32
        → w (wire_ith_input_limb i) ≡ from_canonical n
        → AllZero f (limb_constraints f r gate w i)
    unfolding limb_generator limb_constraints
    limb_generator-AllZero w i n h b e =
        let value : c.to_canonical_u64 (w (wire_ith_input_limb i)) % 2 ^ 32 ≡ n =
          ap (λ a. c.to_canonical_u64 a % 2 ^ 32) e
          ∙ ap (λ a. a % 2 ^ 32) (c.to-from n (omega (arith, b)))
          ∙ omega (arith, b) in
        let h' = rw value at h in
        let limbs =
          collect-scan_limbs w (λ j. wire_ith_input_limb_jth_aux_limb gate i j) 16 0 n h' in
        rw limbs (
          (sub-eq-zero f _ _).1 (reduce-scan_limbs r 16 n (omega (arith, b)) ∙ sym e),
          scan_limbs-AllZero 16 n,
        )

    -- If every input wire holds a number below 2 ^ 32 and the other wires hold what the generator
    -- sets, all constraints of the gate are met.
    pub run_once-eval_unfiltered :
        (w : ℕ → F)
        → ((i : ℕ)
            → i < gate.num_input_limbs
            → (n : ℕ) × (n < 2 ^ 32) × (w (wire_ith_input_limb i) ≡ from_canonical n))
        → AreSet f w (run_once c gate w)
        → AllZero f (eval_unfiltered f r gate w)
    unfolding run_once eval_unfiltered
    run_once-eval_unfiltered w inputs h =
        AllZero-for_ops f gate.num_input_limbs 0 (limb_constraints f r gate w) (λ k lo hi.
          let (n, b, e) = inputs k (omega arith) in
          limb_generator-AllZero w k n
            (for_ops-All (λ p. w p.0 ≡ p.1) gate.num_input_limbs 0 (limb_generator c gate w) h k lo
              hi)
            b e)

-- ===== src/Gates/AddManyGenerator.antt =====
-- plonky2x/core/src/frontend/uint/num/u32/gates/add_many_u32.rs: `U32AddManyGenerator`.
use mathlib.Core.Path.{subst}
use succinctx.Prelude.{
  ℕ, ◌+◌, ◌*◌, ◌/◌, ◌%◌, ◌^◌, ◌<◌, ◌≡◌, sym, ap, ap₂, ◌∙◌, List, [], ◌∷◌, ◌++◌, append-nil, arith,
  length,
}
use succinctx.Gates.Field.{
  Field, AllZero, AllZero-append, for_ops, for_ops-All, AllZero-for_ops, sub-eq-zero,
}
use succinctx.Gates.Generator.{
  Canonical, AreSet, zero_plus, scan_limbs, set_limbs, set_limbs-digits, limbs_loop-set, shift,
  shift-zero,
}
use succinctx.Gates.AddMany.{
  U32AddManyGate, num_result_limbs, num_carry_limbs, collect, fold_add, op_constraints,
  eval_unfiltered, wire_ith_op_jth_addend, wire_ith_carry, wire_ith_output_result,
  wire_ith_output_carry, wire_ith_output_jth_limb,
}
use succinctx.Gates.AddManySound.{AreAddends, fold_add-collect}
use succinctx.Uint.Gadgets.{sum}

module _ (f : Field) (c : Canonical f) (gate : U32AddManyGate) where
  open f use {F, zero_f, one_f, add, sub, mul, from_canonical}

  -- The generator of operation `i`.
  unfoldable pub run_once : (ℕ → F) → ℕ → List (ℕ × F)
  run_once witness i =
      let addends = collect (λ j. witness (wire_ith_op_jth_addend gate i j)) gate.num_addends 0 in
      let carry = witness (wire_ith_carry gate i) in
      let output = add (fold_add f gate zero_f addends) carry in
      let output_u64 = c.to_canonical_u64 output in
      let output_carry_u64 = output_u64 / 2 ^ 32 in
      let output_result_u64 = output_u64 % 2 ^ 32 in
      (wire_ith_output_carry gate i, from_canonical output_carry_u64)
      ∷ (wire_ith_output_result gate i, from_canonical output_result_u64)
      ∷ set_limbs f (wire_ith_output_jth_limb gate i) 0 (
          scan_limbs f num_result_limbs output_result_u64
          ++ scan_limbs f num_carry_limbs output_carry_u64)

  unfoldable pub generators : (ℕ → F) → List (ℕ × F)
  unfolding run_once
  generators witness = for_ops gate.num_ops 0 (run_once witness)

  run_once-AllZero :
      (w : ℕ → F) (i carry : ℕ) (xs : List ℕ)
      → AreSet f w (run_once w i)
      → gate.num_addends ≡ length xs
      → sum xs + carry < 2 ^ 38
      → AreAddends f gate w i 0 xs
      → w (wire_ith_carry gate i) ≡ from_canonical carry
      → AllZero f (op_constraints f gate w i)
  unfolding run_once op_constraints shift
  run_once-AllZero w i carry xs h n bound ax ec =
      let at_wire = wire_ith_output_jth_limb gate i in
      let limb : ℕ → F = λ j. w (at_wire j) in
      let total = sum xs + carry in
      let r = total % 2 ^ 32 in
      let k = total / 2 ^ 32 in
      let addends = λ (j : ℕ). w (wire_ith_op_jth_addend gate i j) in
      let output : add (fold_add f gate zero_f (collect addends gate.num_addends 0))
            (w (wire_ith_carry gate i))
          ≡ from_canonical total =
        ap₂ (λ a b. add a b)
          (ap₂ (λ a m. fold_add f gate a (collect addends m 0)) (sym f.from_zero) n
            ∙ fold_add-collect f gate w i 0 0 xs ax)
          ec
        ∙ sym (f.from_add (0 + sum xs) carry)
        ∙ ap from_canonical (omega arith) in
      let value = ap c.to_canonical_u64 output ∙ c.to-from total (omega (arith, bound)) in
      let h' = rw value at h in
      let (results, after) = set_limbs-digits f w at_wire 16 0 r (scan_limbs f 3 k) (h'.1.1) in
      let carries =
        (set_limbs-digits f w at_wire 3 16 k [] (
          subst (λ vs. AreSet f w (set_limbs f at_wire 16 vs)) (sym (append-nil (scan_limbs f 3 k)))
            after)).0 in
      let no_result : zero_f ≡ from_canonical (shift r 16) =
        sym f.from_zero ∙ ap from_canonical (sym (shift-zero r 16 (omega arith))) in
      let no_carry : zero_f ≡ from_canonical (shift k 3) =
        sym f.from_zero ∙ ap from_canonical (sym (shift-zero k 3 (omega (arith, bound)))) in
      let (products, result_limbs, carry_limbs) =
        limbs_loop-set f limb 16 19 r k zero_f zero_f
          (λ j l l'. ap limb (sym (zero_plus j)) ∙ results j l') (λ j l. carries j (omega arith))
          no_result no_carry in
      let combined : add (mul (w (wire_ith_output_carry gate i)) (from_canonical (2 ^ 32)))
            (w (wire_ith_output_result gate i))
          ≡ from_canonical total =
        ap₂ (λ a b. add (mul a (from_canonical (2 ^ 32))) b) (h'.0) (h'.1.0)
        ∙ ap (λ a. add a (from_canonical r)) (sym (f.from_mul k (2 ^ 32)))
        ∙ sym (f.from_add (k * 2 ^ 32) r)
        ∙ ap from_canonical (omega arith) in
      (
        (sub-eq-zero f _ _).1 (combined ∙ sym output),
        (AllZero-append f _ _).1 (
          products,
          (
            (sub-eq-zero f _ _).1 (result_limbs ∙ sym (h'.1.0)),
            ((sub-eq-zero f _ _).1 (carry_limbs ∙ sym (h'.0)), tt),
          ),
        ),
      )

  -- If the inputs of every operation are numbers with a sum below 2 ^ 38, the greatest that the three
  -- limbs of the carry can hold, and the other wires hold what the generators set, all constraints of
  -- the gate are met.
  pub generators-sum :
      (w : ℕ → F)
      → ((i : ℕ)
          → i < gate.num_ops
          → (xs : List ℕ) × (carry : ℕ) × (gate.num_addends ≡ length xs)
            × (sum xs + carry < 2 ^ 38)
            × AreAddends f gate w i 0 xs
            × (w (wire_ith_carry gate i) ≡ from_canonical carry))
      → AreSet f w (generators w)
      → AllZero f (eval_unfiltered f gate w)
  unfolding generators eval_unfiltered
  generators-sum w inputs h = AllZero-for_ops f gate.num_ops 0 (op_constraints f gate w) (λ k lo hi.
      let (xs, carry, n, bound, ax, ec) = inputs k (omega arith) in
      run_once-AllZero w k carry xs
        (for_ops-All (λ p. w p.0 ≡ p.1) gate.num_ops 0 (run_once w) h k lo hi) n bound ax ec)

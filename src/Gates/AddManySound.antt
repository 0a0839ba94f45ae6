-- ===== src/Gates/AddManySound.antt =====
-- The constraints of `U32AddManyGate` force its outputs.
use succinctx.Prelude.{
  ℕ, ◌+◌, ◌*◌, ◌/◌, ◌%◌, ◌^◌, ◌≤◌, ◌<◌, ◌≡◌, sym, ap, ap₂, ◌∙◌, List, [], ◌∷◌, arith, lt→ltb,
  le→ltb_false, length, ok,
}
use succinctx.Gates.Field.{Field, IsDomain, AllZero, AllZero-append, for_ops-AllZero, sub-eq-zero}
use succinctx.Gates.LimbsSound.{limbs_loop_sound}
use succinctx.Gates.Limbs.{limbs_loop}
use succinctx.Gates.AddMany.{
  U32AddManyGate, collect, fold_add, op_constraints, eval_unfiltered, wire_ith_op_jth_addend,
  wire_ith_carry, wire_ith_output_result, wire_ith_output_carry, wire_ith_output_jth_limb,
}
use succinctx.Uint.Gadgets.{add_many_gate, sum}
use succinctx.Uint.Value.{AreLimbs}
use succinctx.Uint.Product.{sum-bound}

add_many_gate-value :
    (xs : List ℕ) (carry : ℕ)
    → length xs ≤ 64
    → (sum xs + carry) / 2 ^ 32 < 64
    → add_many_gate xs carry ≡ ok ((sum xs + carry) % 2 ^ 32, (sum xs + carry) / 2 ^ 32)
unfolding add_many_gate
add_many_gate-value xs carry short h =
    rw (le→ltb_false 64 (length xs) short, lt→ltb ((sum xs + carry) / 2 ^ 32) 64 h)

module _ (f : Field) (gate : U32AddManyGate) where
  open f use {F, zero_f, add, sub, mul, from_canonical}

  -- The wires from number `j` on hold the addends.
  abbrev pub AreAddends : (ℕ → F) → ℕ → ℕ → List ℕ → Type 0
  AreAddends w i j [] = Unit {0}
  AreAddends w i j (x ∷ xs) =
      (w (wire_ith_op_jth_addend gate i j) ≡ from_canonical x) × AreAddends w i (j + 1) xs

  pub fold_add-collect :
      (w : ℕ → F) (i j v : ℕ) (xs : List ℕ)
      → AreAddends w i j xs
      → fold_add f gate
          (from_canonical v)
          (collect (λ k. w (wire_ith_op_jth_addend gate i k)) (length xs) j)
        ≡ from_canonical (v + sum xs)
  unfolding fold_add collect sum
  fold_add-collect w i j v [] h = ap from_canonical (omega arith)
  fold_add-collect w i j v (x ∷ xs) h =
      ap
        (λ a.
          fold_add f gate a
            (collect (λ k. w (wire_ith_op_jth_addend gate i k)) (length xs) (j + 1)))
        (ap (λ b. add (from_canonical v) b) (h.0) ∙ sym (f.from_add v x))
      ∙ fold_add-collect w i (j + 1) (v + x) xs h.1
      ∙ ap from_canonical (omega arith)

  module _ (d : IsDomain f) where
    op_constraints_sound :
        (w : ℕ → F) (i carry : ℕ) (xs : List ℕ)
        → AllZero f (op_constraints f gate w i)
        → gate.num_addends ≡ length xs
        → length xs ≤ 64
        → AreLimbs xs
        → carry < 2 ^ 32
        → AreAddends w i 0 xs
        → w (wire_ith_carry gate i) ≡ from_canonical carry
        → (r : ℕ) × (c : ℕ) × (add_many_gate xs carry ≡ ok (r, c))
          × (w (wire_ith_output_result gate i) ≡ from_canonical r)
          × (w (wire_ith_output_carry gate i) ≡ from_canonical c)
    unfolding op_constraints
    op_constraints_sound w i carry xs z n short lx bc ax ec =
        let limb : ℕ → F = λ j. w (wire_ith_output_jth_limb gate i j) in
        let out : List F × F × F = limbs_loop f limb 16 19 zero_f zero_f in
        let w_result = w (wire_ith_output_result gate i) in
        let w_carry = w (wire_ith_output_carry gate i) in
        let (products, ends) =
          (AllZero-append f out.0 (sub out.1 w_result ∷ sub out.2 w_carry ∷ [])).0 (z.1) in
        let (l, h, el, eh, bl, bh) =
          limbs_loop_sound f d limb 16 19 0 0 0 0 zero_f zero_f (sym f.from_zero) (sym f.from_zero)
            (omega arith) (omega arith) products in
        let low : w_result ≡ from_canonical l =
          sym ((sub-eq-zero f out.1 w_result).0 (ends.0)) ∙ el in
        let high : w_carry ≡ from_canonical h =
          sym ((sub-eq-zero f out.2 w_carry).0 (ends.1.0)) ∙ eh in
        let addends = λ (k : ℕ). w (wire_ith_op_jth_addend gate i k) in
        let total : add (fold_add f gate zero_f (collect addends gate.num_addends 0))
              (w (wire_ith_carry gate i))
            ≡ from_canonical (sum xs + carry) =
          ap₂ (λ a b. add a b)
            (ap₂ (λ a k. fold_add f gate a (collect addends k 0)) (sym f.from_zero) n
              ∙ fold_add-collect w i 0 0 xs ax)
            ec
          ∙ sym (f.from_add (0 + sum xs) carry)
          ∙ ap from_canonical (omega arith) in
        let outputs : add (mul w_carry (from_canonical (2 ^ 32))) w_result
            ≡ from_canonical (h * 2 ^ 32 + l) =
          ap₂ (λ a b. add (mul a (from_canonical (2 ^ 32))) b) high low
          ∙ ap (λ a. add a (from_canonical l)) (sym (f.from_mul h (2 ^ 32)))
          ∙ sym (f.from_add (h * 2 ^ 32) l) in
        let bound = sum-bound xs lx in
        let equation : h * 2 ^ 32 + l ≡ sum xs + carry =
          d.injective (h * 2 ^ 32 + l) (sum xs + carry) (omega arith) (omega arith)
            (sym outputs ∙ (sub-eq-zero f _ _).0 (z.0) ∙ total) in
        (
          (sum xs + carry) % 2 ^ 32,
          (sum xs + carry) / 2 ^ 32,
          add_many_gate-value xs carry short (omega (arith, equation, bh)),
          low ∙ ap from_canonical (omega (arith, equation, bl)),
          high ∙ ap from_canonical (omega (arith, equation, bl)),
        )

    -- For every operation of the gate whose addends, at most 64 of them, and whose carry are numbers
    -- below 2 ^ 32: if all constraints of the gate are met, whatever the prover puts on the other
    -- wires, the gate's result is that of the model of `add_many_u32`, and the output wires hold it.
    pub eval_unfiltered-add_many_gate :
        (w : ℕ → F) (i carry : ℕ) (xs : List ℕ)
        → AllZero f (eval_unfiltered f gate w)
        → i < gate.num_ops
        → gate.num_addends ≡ length xs
        → length xs ≤ 64
        → AreLimbs xs
        → carry < 2 ^ 32
        → AreAddends w i 0 xs
        → w (wire_ith_carry gate i) ≡ from_canonical carry
        → (r : ℕ) × (c : ℕ) × (add_many_gate xs carry ≡ ok (r, c))
          × (w (wire_ith_output_result gate i) ≡ from_canonical r)
          × (w (wire_ith_output_carry gate i) ≡ from_canonical c)
    unfolding eval_unfiltered
    eval_unfiltered-add_many_gate w i carry xs z h =
        op_constraints_sound w i carry xs (
          for_ops-AllZero f gate.num_ops 0 (op_constraints f gate w) z i (omega arith)
            (omega arith))

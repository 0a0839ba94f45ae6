-- ===== src/Uint/DivN.antt =====
-- `div` and `rem` on integers of `c` limbs.
use mathlib.Core.Path.{subst}
use succinctx.Prelude.{
  ℕ, ◌/◌, ◌%◌, ◌≤◌, ◌<◌, ◌≡◌, refl, sym, ap, ◌∙◌, List, arith, length, Outcome, ok, panic, stuck,
  ◌>>◌,
}
use succinctx.Uint.Value.{value, AreLimbs}
use succinctx.Uint.Wrap.{guards_pass, copy_limbs-all}
use succinctx.Uint.DivRem.{div_rem_constraints_iff}
use succinctx.Uint.UintN.{div, rem}

>>-eq-ok :
    (first : Outcome (Unit {0})) (next : Outcome (List ℕ)) {result : List ℕ}
    → (first >> next) ≡ ok result
    → (first ≡ ok tt) × (next ≡ ok result)
>>-eq-ok panic next e = cc
>>-eq-ok stuck next e = cc
>>-eq-ok (ok tt) next e = (refl, e)

ok_inj : {x y : List ℕ} → ok x ≡ ok y → x ≡ y
ok_inj e = cc

module _ (c : ℕ) (a b quotient remainder : List ℕ) (la : AreLimbs a) (lb : AreLimbs b)
    (length_a : length a ≡ c) (length_b : length b ≡ c) (length_quotient : length quotient ≡ c)
    (length_remainder : length remainder ≡ c) (short : c ≤ 32) where
  -- For two integers of c limbs below 2 ^ 32, with c at most 32, and any quotient and remainder
  -- of c limbs that the prover gives: if div returns, the divisor is not 0 and the result is the
  -- quotient of the values, in limbs below 2 ^ 32.
  pub div-value :
      (d : List ℕ)
      → div c a b quotient remainder ≡ ok d
      → (0 < value b) × AreLimbs d × (value d ≡ value a / value b)
  unfolding div
  div-value d e =
      let (e₁, e₂) = >>-eq-ok _ _ (sym (guards_pass c a b _ length_a length_b) ∙ e) in
      let (lq, lr, positive, q, r) =
        (div_rem_constraints_iff a b quotient remainder la lb
            (omega (arith, length_quotient, short))).0
          e₁ in
      let same : quotient ≡ d = ok_inj (sym (copy_limbs-all c quotient length_quotient) ∙ e₂) in
      (positive, subst AreLimbs same lq, ap value (sym same) ∙ q)

  -- For two integers of c limbs below 2 ^ 32, with c at most 32, and any quotient and remainder
  -- of c limbs that the prover gives: if rem returns, the divisor is not 0 and the result is the
  -- remainder of the values, in limbs below 2 ^ 32.
  pub rem-value :
      (d : List ℕ)
      → rem c a b quotient remainder ≡ ok d
      → (0 < value b) × AreLimbs d × (value d ≡ value a % value b)
  unfolding rem
  rem-value d e =
      let (e₁, e₂) = >>-eq-ok _ _ (sym (guards_pass c a b _ length_a length_b) ∙ e) in
      let (lq, lr, positive, q, r) =
        (div_rem_constraints_iff a b quotient remainder la lb
            (omega (arith, length_quotient, short))).0
          e₁ in
      let same : remainder ≡ d = ok_inj (sym (copy_limbs-all c remainder length_remainder) ∙ e₂) in
      (positive, subst AreLimbs same lr, ap value (sym same) ∙ r)

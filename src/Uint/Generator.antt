-- ===== src/Uint/Generator.antt =====
-- `BigUintDivRemGenerator` of plonky2x/core/src/frontend/uint/num/biguint/mod.rs, which computes the
-- quotient and the remainder for the prover. A `BigUint` is its number.
use native.Mathlib.Nat.{mod-lt, div-le_self}
use succinctx.Prelude.{
  ℕ, ◌+◌, ◌-◌, ◌*◌, ◌/◌, ◌%◌, ◌^◌, ◌≤◌, ◌<◌, ◌≡◌, refl, ◌∙◌, List, [], ◌∷◌, ◌++◌, arith, ltb, leb,
  if◌then◌else◌, lt→ltb, le→leb, length, length-append, replicate, length-replicate, Outcome, ok,
  panic, ◌>>=◌, ◌>>◌, ensure,
}
use succinctx.Uint.BigUint.{div_rem_constraints}
use succinctx.Uint.Value.{value, AreLimbs, value-bound, value-append_zeros, AreLimbs-append_zeros}
use succinctx.Uint.DivRem.{div_rem_constraints_iff}

-- The fold over the reversed limbs.
unfoldable pub get_biguint_target : List ℕ → ℕ
get_biguint_target [] = 0
get_biguint_target (limb ∷ limbs) = get_biguint_target limbs * 2 ^ 32 + limb

-- The limbs that a target of `num_limbs` limbs is set to; `to_u32_digits` is the one of `BigUint`.
unfoldable pub set_biguint_target : (ℕ → List ℕ) → ℕ → ℕ → Outcome (List ℕ)
set_biguint_target to_u32_digits num_limbs v =
    let limbs = to_u32_digits v in
    if leb (length limbs) num_limbs
    then ok (limbs ++ replicate (num_limbs - length limbs) 0)
    else panic

-- The values of `div` and `rem`, which have `div_limbs` and `rem_limbs` limbs. A division by zero
-- panics.
unfoldable pub run_once : (ℕ → List ℕ) → List ℕ → List ℕ → ℕ → ℕ → Outcome (List ℕ × List ℕ)
unfolding get_biguint_target set_biguint_target
run_once to_u32_digits a b div_limbs rem_limbs = do
  let a' = get_biguint_target a
  let b' = get_biguint_target b
  ensure (ltb 0 b')
  div ← set_biguint_target to_u32_digits div_limbs (a' / b')
  rem ← set_biguint_target to_u32_digits rem_limbs (a' % b')
  ok (div, rem)

-- What `BigUint::to_u32_digits` returns: the digits in base 2 ^ 32, the lowest first, with no zeros
-- at the end.
pub record AreDigits (to_u32_digits : ℕ → List ℕ) : Type 0 where
  pub value_digits : (v : ℕ) → value (to_u32_digits v) ≡ v
  pub limbs_digits : (v : ℕ) → AreLimbs (to_u32_digits v)
  pub short_digits : (v n : ℕ) → v < (2 ^ 32) ^ n → length (to_u32_digits v) ≤ n

get_biguint_target-value : (xs : List ℕ) → get_biguint_target xs ≡ value xs
unfolding get_biguint_target value
get_biguint_target-value [] = refl
get_biguint_target-value (x ∷ xs) = omega (arith, get_biguint_target-value xs)

module _ (to_u32_digits : ℕ → List ℕ) (digits : AreDigits to_u32_digits) where
  set_biguint_target-ok :
      (n v : ℕ)
      → v < (2 ^ 32) ^ n
      → (xs : List ℕ) × (set_biguint_target to_u32_digits n v ≡ ok xs)
        × AreLimbs xs
        × (length xs ≡ n)
        × (value xs ≡ v)
  unfolding set_biguint_target
  set_biguint_target-ok n v h =
      let limbs = to_u32_digits v in
      let short = digits.short_digits v n h in
      let zeros = n - length limbs in
      (
        limbs ++ replicate zeros 0,
        rw (le→leb (length limbs) n short),
        AreLimbs-append_zeros limbs zeros (digits.limbs_digits v),
        omega (
          arith,
          short,
          length-append limbs (replicate zeros 0),
          length-replicate {A = ℕ} zeros 0,
        ),
        value-append_zeros limbs zeros ∙ digits.value_digits v,
      )

  -- For operands with limbs below 2 ^ 32, at most 32 of them in the dividend, a divisor other
  -- than 0, and digits that are those of base 2 ^ 32, the generator finds a quotient in as many
  -- limbs as the dividend has and a remainder in as many as the divisor has, and they meet the
  -- constraints of the division.
  pub run_once-div_rem_constraints :
      (a b : List ℕ)
      → AreLimbs a
      → AreLimbs b
      → length a ≤ 32
      → 0 < value b
      → (div : List ℕ) × (rem : List ℕ) × (run_once to_u32_digits a b (length a) (length b)
          ≡ ok (div, rem))
        × (div_rem_constraints a b div rem ≡ ok tt)
  unfolding run_once
  run_once-div_rem_constraints a b la lb short positive =
      let bound_a = value-bound a la in
      let bound_b = value-bound b lb in
      let smaller : value a / value b ≤ value a = div-le_self (value a) (value b) in
      let below : value a % value b < value b = mod-lt (value a) positive in
      let (div, e₁, l₁, len₁, v₁) =
        set_biguint_target-ok (length a) (value a / value b) (omega (arith, bound_a, smaller)) in
      let (rem, e₂, l₂, len₂, v₂) =
        set_biguint_target-ok (length b) (value a % value b) (omega (arith, bound_b, below)) in
      (
        div,
        rem,
        rw (get_biguint_target-value a, get_biguint_target-value b, lt→ltb 0 (value b) positive, e₁)
            (rw e₂),
        (div_rem_constraints_iff a b div rem la lb (omega (arith, len₁, short))).1
            (l₁, l₂, positive, v₁, v₂),
      )

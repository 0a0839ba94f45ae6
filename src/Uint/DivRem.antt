-- ===== src/Uint/DivRem.antt =====
-- The constraints of `_div_rem_biguint` hold of the quotient and the remainder, and of nothing else.
use native.Mathlib.Nat.{
  add-mul-div_right, add-mul-mod_self_right, div-add-mod', div-eq_of_lt, mod-lt, mod-eq_of_lt,
  zero-add,
}
use succinctx.Prelude.{
  ℕ, ◌+◌, ◌*◌, ◌/◌, ◌%◌, ◌^◌, ◌≤◌, ◌<◌, ◌≡◌, refl, sym, ap, ◌∙◌, ◌↔◌, inl, inr, List, [], ◌∷◌,
  arith, ltb, leb, ◌==◌, if◌then◌else◌, ltb→lt, lt→ltb, tests, Bool-cases, length, ok, ◌>>=◌, ◌>>◌,
  ensure,
}
use succinctx.Uint.BigUint.{
  mul_biguint, add_biguint, connect_biguint, cmp_biguint, range_check_u32_circuit,
  div_rem_constraints,
}
use succinctx.Uint.Value.{value, AreLimbs}
use succinctx.Uint.Add.{add_biguint-value}
use succinctx.Uint.Product.{mul_biguint-value}
use succinctx.Uint.Compare.{cmp_biguint-value}
use succinctx.Uint.Connect.{ensure_iff, >>_iff, connect_biguint_iff}

pub range_check_u32_circuit_iff : (xs : List ℕ) → (range_check_u32_circuit xs ≡ ok tt) ↔ AreLimbs xs
unfolding range_check_u32_circuit
range_check_u32_circuit_iff [] = (λ e. tt, λ e. refl)
range_check_u32_circuit_iff (x ∷ xs) =
    let here = ensure_iff (ltb x (2 ^ 32)) (range_check_u32_circuit xs) in
    let rest = range_check_u32_circuit_iff xs in
    (
      λ e. let (h, e') = here.0 e in (ltb→lt x (2 ^ 32) h, rest.0 e'),
      λ p. here.1 (lt→ltb x (2 ^ 32) p.0, rest.1 p.1),
    )

below_iff : (x y : ℕ) → (ensure ((if leb x y then 1 else 0) == 0) ≡ ok tt) ↔ (y < x)
below_iff x y = elim (Bool-cases (leb x y)) [
  | inl e ↦ rw e (λ e'. cc, λ h. absurd (omega (tests, e)))
  | inr e ↦ rw e (λ e'. ground (arith, e), λ h. refl)
]

-- The steps after the range checks.
equation_iff :
    (a b div rem : List ℕ)
    → AreLimbs a
    → AreLimbs b
    → AreLimbs div
    → AreLimbs rem
    → length div ≤ 32
    → ((mul_biguint div b >>= (λ prod.
          add_biguint prod rem
          >>= (λ total. connect_biguint a total >> (cmp_biguint b rem >>= (λ c. ensure (c == 0))))))
        ≡ ok tt)
      ↔ ((value a ≡ value div * value b + value rem) × (value rem < value b))
equation_iff a b div rem la lb ld lr h =
    let (prod, e₁, l₁, len₁, v₁) = mul_biguint-value div b ld lb h in
    let (total, e₂, l₂, len₂, v₂) = add_biguint-value prod rem l₁ lr in
    let whole : value total ≡ value div * value b + value rem = v₂ ∙ ap (λ v. v + value rem) v₁ in
    let same = connect_biguint_iff a total la l₂ in
    let below = below_iff (value b) (value rem) in
    let both =
      >>_iff (connect_biguint a total)
        (ensure ((if leb (value b) (value rem) then 1 else 0) == 0)) in
    rw (e₁, e₂, cmp_biguint-value b rem lb lr)
      (
        λ e. let (c, d) = both.0 e in (same.0 c ∙ whole, below.0 d),
        λ p. both.1 (same.1 (p.0 ∙ sym whole), below.1 p.1),
      )

quotient_iff : (a b q r : ℕ) → ((a ≡ q * b + r) × (r < b)) ↔ ((0 < b) × (q ≡ a / b) × (r ≡ a % b))
quotient_iff a b q r = (
  λ p.
      let (whole, h) = p in
      let positive : 0 < b = omega arith in
      let whole' : a ≡ r + q * b = omega arith in
      let quotient : a / b ≡ q =
        ap (λ n. n / b) whole'
        ∙ add-mul-div_right r q positive
        ∙ ap (λ n. n + q) (div-eq_of_lt h)
        ∙ zero-add q in
      let remainder : a % b ≡ r =
        ap (λ n. n % b) whole' ∙ add-mul-mod_self_right r q b ∙ mod-eq_of_lt h in
      (positive, sym quotient, sym remainder),
  λ p.
      let (positive, quotient, remainder) = p in
      (rw (quotient, remainder) (sym (div-add-mod' a b)), rw remainder (mod-lt a positive)),
)

-- For operands with limbs below 2 ^ 32 and a quotient of at most 32 limbs, the constraints of the
-- division are met if and only if the quotient and the remainder are in limbs below 2 ^ 32, the
-- value of the divisor is not 0, and they are the quotient and the remainder of the values.
pub div_rem_constraints_iff :
    (a b div rem : List ℕ)
    → AreLimbs a
    → AreLimbs b
    → length div ≤ 32
    → (div_rem_constraints a b div rem ≡ ok tt) ↔ (
        AreLimbs div
        × AreLimbs rem
        × (0 < value b)
        × (value div ≡ value a / value b)
        × (value rem ≡ value a % value b))
unfolding div_rem_constraints
div_rem_constraints_iff a b div rem la lb h =
    let check_div = range_check_u32_circuit_iff div in
    let check_rem = range_check_u32_circuit_iff rem in
    let quotient = quotient_iff (value a) (value b) (value div) (value rem) in
    (
      λ e.
          let (e₁, e₂) = (>>_iff _ _).0 e in
          let (e₃, e₄) = (>>_iff _ _).0 e₂ in
          let ld = check_div.0 e₁ in
          let lr = check_rem.0 e₃ in
          let (positive, q, r) = quotient.0 ((equation_iff a b div rem la lb ld lr h).0 e₄) in
          (ld, lr, positive, q, r),
      λ p.
          let (ld, lr, positive, q, r) = p in
          (>>_iff _ _).1 (
            check_div.1 ld,
            (>>_iff _ _).1 (
              check_rem.1 lr,
              (equation_iff a b div rem la lb ld lr h).1 (quotient.1 (positive, q, r)),
            ),
          ),
    )

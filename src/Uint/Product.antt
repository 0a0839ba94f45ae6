-- ===== src/Uint/Product.antt =====
-- `mul_biguint` computes the product: the rows, the carries and the whole.
use native.Mathlib.Nat.{add-zero, pow-succ'}
use succinctx.Prelude.{
  ℕ, zero, suc, ◌+◌, ◌*◌, ◌/◌, ◌%◌, ◌^◌, ◌≤◌, ◌<◌, ◌≡◌, refl, ap, ◌∙◌, List, [], ◌∷◌, arith, lt→ltb,
  le→ltb_false, length, replicate, length-replicate, ok,
}
use succinctx.Uint.Gadgets.{sum, mul_add_u32, add_u32s_with_carry, add_many_gate, add_u32}
use succinctx.Uint.BigUint.{rows_loop, carry_loop, mul_biguint}
use succinctx.Uint.Value.{value, AreLimbs}
use succinctx.Uint.Mul.{columns_value, AreColumns, AreColumns-le, row_loop-ok}

rows_step :
    (x c c₁ c₂ w v k : ℕ)
    → c₁ ≡ c + x * v * (2 ^ 32) ^ (k + 0)
    → c₂ ≡ c₁ + w * v * (2 ^ 32) ^ (k + 1)
    → c₂ ≡ c + (x + 2 ^ 32 * w) * v * (2 ^ 32) ^ k
rows_step x c c₁ c₂ w v k h h' =
    let e : k + 1 ≡ suc k = omega arith in
    let p : (2 ^ 32) ^ (k + 1) ≡ 2 ^ 32 * (2 ^ 32) ^ k =
      ap (λ n. (2 ^ 32) ^ n) e ∙ pow-succ' (2 ^ 32) k in
    omega (arith, rw (add-zero k) at h, rw p at h')

rows_loop-ok :
    (i m : ℕ) (xs b : List ℕ) (cs : List (List ℕ))
    → i + length xs + length b ≤ length cs
    → AreLimbs xs
    → AreLimbs b
    → AreColumns (λ k. m) cs
    → (cs' : List (List ℕ)) × (rows_loop i xs b cs ≡ ok cs')
      × (length cs' ≡ length cs)
      × AreColumns (λ k. m + 2 * length xs) cs'
      × (columns_value cs' ≡ columns_value cs + value xs * value b * (2 ^ 32) ^ i)
unfolding rows_loop value
rows_loop-ok i m [] b cs h lx lb cols =
    (cs, refl, refl, AreColumns-le _ _ cs (λ k. omega arith) cols, omega arith)
rows_loop-ok i m (x ∷ xs) b cs h lx lb cols =
    let (cs₁, e₁, len₁, cols₁, v₁) =
      row_loop-ok i x b 0 m cs (omega arith) lx.0 lb
        (AreColumns-le _ _ cs (λ k. ground arith) cols) in
    let (cs₂, e₂, len₂, cols₂, v₂) =
      rows_loop-ok (i + 1) (m + 2) xs b cs₁ (omega (arith, len₁)) lx.1 lb
        (AreColumns-le _ _ cs₁ (λ k. ground arith) cols₁) in
    (
      cs₂,
      rw e₁ e₂,
      len₂ ∙ len₁,
      AreColumns-le _ _ cs₂ (λ k. omega arith) cols₂,
      rows_step x (columns_value cs) (columns_value cs₁) (columns_value cs₂) (value xs) (value b) i
          v₁ v₂,
    )

pub sum-bound : (c : List ℕ) → AreLimbs c → sum c + length c ≤ length c * 2 ^ 32
unfolding sum
sum-bound [] h = omega arith
sum-bound (x ∷ xs) h = omega (arith, h.0, sum-bound xs h.1)

pub add_many_gate-ok :
    (c : List ℕ) (carry : ℕ)
    → AreLimbs c
    → length c ≤ 64
    → carry < 64
    → add_many_gate c carry ≡ ok ((sum c + carry) % 2 ^ 32, (sum c + carry) / 2 ^ 32)
unfolding add_many_gate
add_many_gate-ok c carry lc h hc =
    let bound = sum-bound c lc in
    rw (le→ltb_false 64 (length c) h, lt→ltb ((sum c + carry) / 2 ^ 32) 64 (omega (arith, bound)))

add_u32s_with_carry-ok :
    (c : List ℕ) (carry : ℕ)
    → AreLimbs c
    → length c ≤ 64
    → carry < 64
    → add_u32s_with_carry c carry ≡ ok ((sum c + carry) % 2 ^ 32, (sum c + carry) / 2 ^ 32)
unfolding add_u32s_with_carry sum add_u32 mul_add_u32
add_u32s_with_carry-ok [] carry lc h hc = add_many_gate-ok [] carry lc h hc
add_u32s_with_carry-ok (x ∷ []) carry lc h hc =
    let e : x * 1 + carry ≡ x + 0 + carry = omega arith in rw e
add_u32s_with_carry-ok (x ∷ y ∷ ys) carry lc h hc = add_many_gate-ok (x ∷ y ∷ ys) carry lc h hc

carry_loop-ok :
    (carry : ℕ) (cs : List (List ℕ))
    → carry < 64
    → AreColumns (λ k. 64) cs
    → (r : List ℕ) × (carry_loop carry cs ≡ ok r)
      × AreLimbs r
      × (length r ≡ length cs + 1)
      × (value r ≡ carry + columns_value cs)
unfolding carry_loop value columns_value
carry_loop-ok carry [] h cols = (carry ∷ [], refl, (omega arith, tt), refl, omega arith)
carry_loop-ok carry (c ∷ cs) h cols =
    let bound = sum-bound c cols.0.0 in
    let short = cols.0.1 in
    let s = sum c + carry in
    let next : s / 2 ^ 32 < 64 = omega arith in
    let (r, e, lr, len, v) = carry_loop-ok (s / 2 ^ 32) cs next cols.1 in
    (
      s % 2 ^ 32 ∷ r,
      rw (add_u32s_with_carry-ok c carry cols.0.0 short h) (rw e),
      (omega arith, lr),
      omega (arith, len),
      omega (arith, v),
    )

empty_columns :
    (n : ℕ) → AreColumns (λ k. 0) (replicate n []) × (columns_value (replicate n []) ≡ 0)
unfolding columns_value sum
empty_columns zero = (tt, refl)
empty_columns (suc n) =
    let (cols, e) = empty_columns n in (((tt, omega arith), cols), omega (arith, e))

-- For limbs below 2 ^ 32, at most 32 of them in the first operand, mul_biguint does not panic and
-- returns limbs below 2 ^ 32, one more than the operands have together, whose value is the
-- product of the values. A column collects two entries for each limb of the first operand, so 32
-- limbs keep it within the 64 addends of the gate.
pub mul_biguint-value :
    (a b : List ℕ)
    → AreLimbs a
    → AreLimbs b
    → length a ≤ 32
    → (r : List ℕ) × (mul_biguint a b ≡ ok r)
      × AreLimbs r
      × (length r ≡ length a + length b + 1)
      × (value r ≡ value a * value b)
unfolding mul_biguint
mul_biguint-value a b la lb h =
    let n = length a + length b in
    let (empty, zero_value) = empty_columns n in
    let (cs, e, len, cols, v) =
      rows_loop-ok 0 0 a b (replicate n []) (omega (arith, length-replicate {A = List ℕ} n [])) la
        lb empty in
    let (r, e', lr, len', v') =
      carry_loop-ok 0 cs (omega arith) (AreColumns-le _ _ cs (λ k. omega arith) cols) in
    (
      r,
      rw e e',
      lr,
      omega (arith, len, len', length-replicate {A = List ℕ} n []),
      omega (arith, v, v', zero_value),
    )

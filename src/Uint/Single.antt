-- ===== src/Uint/Single.antt =====
-- `U32Variable` adds, subtracts and multiplies modulo 2 ^ 32.
use native.Mathlib.Nat.{mod-mod}
use succinctx.Prelude.{
  ℕ, ◌+◌, ◌-◌, ◌*◌, ◌%◌, ◌^◌, ◌<◌, ◌≡◌, ap, ap₂, ◌∙◌, List, [], ◌∷◌, arith, length, ok, ◌>>=◌,
}
use succinctx.Uint.Value.{value, AreLimbs}
use succinctx.Uint.Add.{add_biguint-value}
use succinctx.Uint.Sub.{sub_biguint-value}
use succinctx.Uint.Product.{mul_biguint-value}
use succinctx.Uint.UintN.{first_limb, add_u32_variable, sub_u32_variable, mul_u32_variable}

single-value : (x : ℕ) → value (x ∷ []) ≡ x
unfolding value
single-value x = omega arith

first_limb-value :
    (xs : List ℕ) → AreLimbs xs → 0 < length xs → first_limb xs ≡ ok (value xs % 2 ^ 32)
unfolding first_limb value
first_limb-value [] l h = absurd (omega arith)
first_limb-value (x ∷ xs) l h = let small : x < 2 ^ 32 = l.0 in ap ok (omega arith)

-- For values below 2 ^ 32, the sum of two U32Variables is the sum modulo 2 ^ 32.
pub add_u32_variable-value :
    (a b : ℕ) → a < 2 ^ 32 → b < 2 ^ 32 → add_u32_variable a b ≡ ok ((a + b) % 2 ^ 32)
unfolding add_u32_variable
add_u32_variable-value a b ha hb =
    let (r, e, l, len, v) = add_biguint-value (a ∷ []) (b ∷ []) (ha, tt) (hb, tt) in
    ap (λ o. o >>= first_limb) e
    ∙ first_limb-value r l (omega (arith, len))
    ∙ ap (λ n. ok (n % 2 ^ 32)) (v ∙ ap₂ (λ x y. x + y) (single-value a) (single-value b))

-- For values below 2 ^ 32, the difference of two U32Variables is the difference modulo 2 ^ 32.
pub sub_u32_variable-value :
    (a b : ℕ) → a < 2 ^ 32 → b < 2 ^ 32 → sub_u32_variable a b ≡ ok ((a + 2 ^ 32 - b) % 2 ^ 32)
unfolding sub_u32_variable
sub_u32_variable-value a b ha hb =
    let (r, e, l, len, v) = sub_biguint-value (a ∷ []) (b ∷ []) (ha, tt) (hb, tt) in
    ap (λ o. o >>= first_limb) e
    ∙ first_limb-value r l (omega (arith, len))
    ∙ ap (λ n. ok (n % 2 ^ 32))
        (v ∙ ap₂ (λ x y. (x + 2 ^ 32 - y) % 2 ^ 32) (single-value a) (single-value b))
    ∙ ap ok (mod-mod (a + 2 ^ 32 - b) (2 ^ 32))

-- For values below 2 ^ 32, the product of two U32Variables is the product modulo 2 ^ 32.
pub mul_u32_variable-value :
    (a b : ℕ) → a < 2 ^ 32 → b < 2 ^ 32 → mul_u32_variable a b ≡ ok ((a * b) % 2 ^ 32)
unfolding mul_u32_variable
mul_u32_variable-value a b ha hb =
    let (r, e, l, len, v) = mul_biguint-value (a ∷ []) (b ∷ []) (ha, tt) (hb, tt) (omega arith) in
    ap (λ o. o >>= first_limb) e
    ∙ first_limb-value r l (omega (arith, len))
    ∙ ap (λ n. ok (n % 2 ^ 32)) (v ∙ ap₂ (λ x y. x * y) (single-value a) (single-value b))

-- ===== src/Uint/Add.antt =====
-- `add_biguint` and `sub_biguint` compute the sum and the difference.
use Prim.Native.Nat.{max}
use succinctx.Prelude.{
  ℕ, zero, suc, ◌+◌, ◌/◌, ◌%◌, ◌^◌, ◌≤◌, ◌<◌, ◌≡◌, refl, List, [], ◌∷◌, arith, ltb, if◌then◌else◌,
  length, get_or, drop, ok,
}
use succinctx.Uint.Gadgets.{add_many_u32, sum}
use succinctx.Uint.BigUint.{add_loop, add_biguint}
use succinctx.Uint.Value.{
  value, AreLimbs, value-drop, value-drop_past, get_or-AreLimbs, get_or_past,
}

add_many_three :
    (c x y : ℕ)
    → c ≤ 1
    → x < 2 ^ 32
    → y < 2 ^ 32
    → add_many_u32 (c ∷ x ∷ y ∷ []) ≡ ok ((c + x + y) % 2 ^ 32, (c + x + y) / 2 ^ 32)
unfolding add_many_u32 sum
add_many_three c x y h h' h'' = ground arith

limb_or_zero :
    (xs : List ℕ) (i : ℕ) → (if ltb i (length xs) then get_or xs i 0 else 0) ≡ get_or xs i 0
limb_or_zero xs i = ground (arith, get_or_past xs i)

add_loop-value :
    (left i carry : ℕ) (a b : List ℕ)
    → AreLimbs a
    → AreLimbs b
    → carry ≤ 1
    → length a ≤ i + left
    → length b ≤ i + left
    → (r : List ℕ) × (add_loop left i carry a b ≡ ok r)
      × AreLimbs r
      × (length r ≡ left + 1)
      × (value r ≡ carry + value (drop i a) + value (drop i b))
unfolding add_loop value
add_loop-value zero i carry a b la lb c ha hb = (
  carry ∷ [],
  refl,
  (omega arith, tt),
  refl,
  omega (arith, value-drop_past a i (omega arith), value-drop_past b i (omega arith)),
)
add_loop-value (suc left) i carry a b la lb c ha hb =
    let x = get_or a i 0 in
    let y = get_or b i 0 in
    let hx = get_or-AreLimbs a i la in
    let hy = get_or-AreLimbs b i lb in
    let s = carry + x + y in
    let (r, e, lr, len, v) =
      add_loop-value left (i + 1) (s / 2 ^ 32) a b la lb (omega arith) (omega arith)
        (omega arith) in
    (
      s % 2 ^ 32 ∷ r,
      rw (limb_or_zero a i, limb_or_zero b i, add_many_three carry x y c hx hy, e),
      (omega arith, lr),
      omega (arith, len),
      omega (arith, v, value-drop a i, value-drop b i),
    )

-- For limbs below 2 ^ 32, add_biguint returns limbs below 2 ^ 32, one more than the longer
-- operand has, whose value is the sum of the values.
pub add_biguint-value :
    (a b : List ℕ)
    → AreLimbs a
    → AreLimbs b
    → (r : List ℕ) × (add_biguint a b ≡ ok r)
      × AreLimbs r
      × (length r ≡ max (length a) (length b) + 1)
      × (value r ≡ value a + value b)
unfolding add_biguint
add_biguint-value a b la lb =
    let (r, e, lr, len, v) =
      add_loop-value (max (length a) (length b)) 0 0 a b la lb (omega arith) (omega arith)
        (omega arith) in
    (r, e, lr, len, omega (arith, v))

-- ===== src/Uint/Wrap.antt =====
-- The integers of `c` limbs wrap around at `2 ^ (32 * c)`, as unsigned integers of that width do.
use Prim.Native.Nat.{max}
use native.Mathlib.Nat.{pow-succ', add-mul-mod_self_left, mod-eq_of_lt, mod-mod}
use succinctx.Prelude.{
  ℕ, zero, suc, ◌+◌, ◌-◌, ◌*◌, ◌%◌, ◌^◌, ◌≤◌, ◌<◌, ◌≡◌, refl, sym, ap, ◌∙◌, List, [], ◌∷◌, arith,
  ◌==◌, ==_refl, length, take, drop, length-take, Outcome, ok, ◌>>=◌, ◌>>◌, ensure,
}
use succinctx.Uint.Value.{value, AreLimbs, value-bound}
use succinctx.Uint.Add.{add_biguint-value}
use succinctx.Uint.Sub.{sub_biguint-value}
use succinctx.Uint.Product.{mul_biguint-value}
use succinctx.Uint.UintN.{copy_limbs, add, sub, mul}

copy_limbs-take : (c : ℕ) (xs : List ℕ) → c ≤ length xs → copy_limbs c xs ≡ ok (take c xs)
unfolding copy_limbs
copy_limbs-take zero xs h = refl
copy_limbs-take (suc c) [] h = absurd (omega arith)
copy_limbs-take (suc c) (x ∷ xs) h = rw (copy_limbs-take c xs (omega arith))

AreLimbs-take : (c : ℕ) (xs : List ℕ) → AreLimbs xs → AreLimbs (take c xs)
AreLimbs-take zero xs l = tt
AreLimbs-take (suc c) [] l = tt
AreLimbs-take (suc c) (x ∷ xs) l = (l.0, AreLimbs-take c xs l.1)

value-take-drop :
    (c : ℕ) (xs : List ℕ) → value xs ≡ value (take c xs) + (2 ^ 32) ^ c * value (drop c xs)
unfolding value
value-take-drop zero xs = omega arith
value-take-drop (suc c) [] = omega arith
value-take-drop (suc c) (x ∷ xs) =
    rw (pow-succ' (2 ^ 32) c) (omega (arith, ap (λ n. 2 ^ 32 * n) (value-take-drop c xs)))

-- The lowest limbs hold the value modulo a power of 2 ^ 32.
pub value-take :
    (c : ℕ) (xs : List ℕ)
    → AreLimbs xs
    → c ≤ length xs
    → value (take c xs) ≡ value xs % (2 ^ 32) ^ c
value-take c xs l h =
    let len : length (take c xs) ≡ c = omega (arith, length-take c xs) in
    let bound : value (take c xs) < (2 ^ 32) ^ c =
      rw len at (value-bound (take c xs) (AreLimbs-take c xs l)) in
    sym (
      ap (λ n. n % (2 ^ 32) ^ c) (value-take-drop c xs)
      ∙ add-mul-mod_self_left (value (take c xs)) ((2 ^ 32) ^ c) (value (drop c xs))
      ∙ mod-eq_of_lt bound)

pub copy_limbs-all : (c : ℕ) (xs : List ℕ) → length xs ≡ c → copy_limbs c xs ≡ ok xs
unfolding copy_limbs
copy_limbs-all zero [] h = refl
copy_limbs-all zero (x ∷ xs) h = absurd (omega arith)
copy_limbs-all (suc c) [] h = absurd (omega arith)
copy_limbs-all (suc c) (x ∷ xs) h = rw (copy_limbs-all c xs (omega arith))

pub guards_pass :
    (c : ℕ) (a b : List ℕ) (result : Outcome (List ℕ))
    → length a ≡ c
    → length b ≡ c
    → (ensure (length a == length b) >> (ensure (length a == c) >> result)) ≡ result
guards_pass c a b result ha hb = rw (ha, hb, ==_refl c)

-- A result that is cut to `c` limbs.
copy_limbs-value :
    (c : ℕ) (xs : List ℕ)
    → AreLimbs xs
    → c ≤ length xs
    → (r : List ℕ) × (copy_limbs c xs ≡ ok r)
      × AreLimbs r
      × (length r ≡ c)
      × (value r ≡ value xs % (2 ^ 32) ^ c)
copy_limbs-value c xs l h = (
  take c xs,
  copy_limbs-take c xs h,
  AreLimbs-take c xs l,
  omega (arith, length-take c xs),
  value-take c xs l h,
)

-- For two integers of c limbs below 2 ^ 32, add returns c limbs below 2 ^ 32 whose value is the
-- sum modulo 2 ^ 32 to the power of c.
pub add-value :
    (c : ℕ) (a b : List ℕ)
    → AreLimbs a
    → AreLimbs b
    → length a ≡ c
    → length b ≡ c
    → (r : List ℕ) × (add c a b ≡ ok r)
      × AreLimbs r
      × (length r ≡ c)
      × (value r ≡ (value a + value b) % (2 ^ 32) ^ c)
unfolding add
add-value c a b la lb ha hb =
    let (s, e, ls, len, v) = add_biguint-value a b la lb in
    let (r, e', lr, len', v') = copy_limbs-value c s ls (omega (arith, len, ha, hb)) in
    (
      r,
      guards_pass c a b _ ha hb ∙ ap (λ o. o >>= copy_limbs c) e ∙ e',
      lr,
      len',
      v' ∙ ap (λ n. n % (2 ^ 32) ^ c) v,
    )

-- For two integers of c limbs below 2 ^ 32, sub returns c limbs below 2 ^ 32 whose value is the
-- difference modulo 2 ^ 32 to the power of c.
pub sub-value :
    (c : ℕ) (a b : List ℕ)
    → AreLimbs a
    → AreLimbs b
    → length a ≡ c
    → length b ≡ c
    → (r : List ℕ) × (sub c a b ≡ ok r)
      × AreLimbs r
      × (length r ≡ c)
      × (value r ≡ (value a + (2 ^ 32) ^ c - value b) % (2 ^ 32) ^ c)
unfolding sub
sub-value c a b la lb ha hb =
    let (d, e, ld, len, v) = sub_biguint-value a b la lb in
    let width : max (length a) (length b) ≡ c = omega (arith, ha, hb) in
    let (r, e', lr, len', v') = copy_limbs-value c d ld (omega (arith, len, width)) in
    (
      r,
      guards_pass c a b _ ha hb ∙ ap (λ o. o >>= copy_limbs c) e ∙ e',
      lr,
      len',
      v'
          ∙ ap (λ n. n % (2 ^ 32) ^ c)
              (v ∙ ap (λ k. (value a + (2 ^ 32) ^ k - value b) % (2 ^ 32) ^ k) width)
          ∙ mod-mod (value a + (2 ^ 32) ^ c - value b) ((2 ^ 32) ^ c),
    )

-- For two integers of c limbs below 2 ^ 32, with c at most 32, mul does not panic and returns c
-- limbs below 2 ^ 32 whose value is the product modulo 2 ^ 32 to the power of c.
pub mul-value :
    (c : ℕ) (a b : List ℕ)
    → AreLimbs a
    → AreLimbs b
    → length a ≡ c
    → length b ≡ c
    → c ≤ 32
    → (r : List ℕ) × (mul c a b ≡ ok r)
      × AreLimbs r
      × (length r ≡ c)
      × (value r ≡ (value a * value b) % (2 ^ 32) ^ c)
unfolding mul
mul-value c a b la lb ha hb h =
    let (p, e, lp, len, v) = mul_biguint-value a b la lb (omega (arith, ha, h)) in
    let (r, e', lr, len', v') = copy_limbs-value c p lp (omega (arith, len, ha, hb)) in
    (
      r,
      guards_pass c a b _ ha hb ∙ ap (λ o. o >>= copy_limbs c) e ∙ e',
      lr,
      len',
      v' ∙ ap (λ n. n % (2 ^ 32) ^ c) v,
    )

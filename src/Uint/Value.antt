-- ===== src/Uint/Value.antt =====
-- The number that limbs stand for.
use Prim.Native.Nat.{max}
use native.Mathlib.Nat.{pow-succ', mul_left_comm}
use succinctx.Prelude.{
  ℕ, zero, suc, ◌+◌, ◌-◌, ◌*◌, ◌^◌, ◌≤◌, ◌<◌, ◌≡◌, refl, ap, ◌∙◌, inl, inr, List, [], ◌∷◌, ◌++◌,
  arith, ltb, ltb_false→le, tests, Bool-cases, length, length-append, get_or, drop, replicate,
  length-replicate,
}
use succinctx.Uint.BigUint.{pad_biguints}

unfoldable pub value : List ℕ → ℕ
value [] = 0
value (x ∷ xs) = x + 2 ^ 32 * value xs

-- Every limb is below 2 ^ 32.
abbrev pub AreLimbs : List ℕ → Type 0
AreLimbs [] = Unit {0}
AreLimbs (x ∷ xs) = (x < 2 ^ 32) × AreLimbs xs

pub value-replicate : (n : ℕ) → value (replicate n 0) ≡ 0
unfolding value
value-replicate zero = refl
value-replicate (suc n) = omega (arith, value-replicate n)

pub value-append_zeros : (xs : List ℕ) (n : ℕ) → value (xs ++ replicate n 0) ≡ value xs
unfolding value
value-append_zeros [] n = value-replicate n
value-append_zeros (x ∷ xs) n = omega (arith, value-append_zeros xs n)

pub AreLimbs-append_zeros : (xs : List ℕ) (n : ℕ) → AreLimbs xs → AreLimbs (xs ++ replicate n 0)
AreLimbs-append_zeros [] zero h = tt
AreLimbs-append_zeros [] (suc n) h = (omega arith, AreLimbs-append_zeros [] n tt)
AreLimbs-append_zeros (x ∷ xs) n h = (h.0, AreLimbs-append_zeros xs n h.1)

value-drop-suc :
    (xs : List ℕ) (i : ℕ) → value (drop i xs) ≡ get_or xs i 0 + 2 ^ 32 * value (drop (suc i) xs)
unfolding value
value-drop-suc [] zero = refl
value-drop-suc [] (suc i) = refl
value-drop-suc (x ∷ xs) zero = refl
value-drop-suc (x ∷ xs) (suc i) = value-drop-suc xs i

-- The limb at an index, and the value from there on.
pub value-drop :
    (xs : List ℕ) (i : ℕ) → value (drop i xs) ≡ get_or xs i 0 + 2 ^ 32 * value (drop (i + 1) xs)
value-drop xs i =
    let suc_eq : suc i ≡ i + 1 = omega arith in
    value-drop-suc xs i ∙ ap (λ k. get_or xs i 0 + 2 ^ 32 * value (drop k xs)) suc_eq

pub value-drop_past : (xs : List ℕ) (i : ℕ) → length xs ≤ i → value (drop i xs) ≡ 0
unfolding value
value-drop_past [] zero h = refl
value-drop_past [] (suc i) h = refl
value-drop_past (x ∷ xs) zero h = absurd (omega arith)
value-drop_past (x ∷ xs) (suc i) h = value-drop_past xs i (omega arith)

pub get_or-AreLimbs : (xs : List ℕ) (i : ℕ) → AreLimbs xs → get_or xs i 0 < 2 ^ 32
get_or-AreLimbs [] i h = omega arith
get_or-AreLimbs (x ∷ xs) zero h = h.0
get_or-AreLimbs (x ∷ xs) (suc i) h = get_or-AreLimbs xs i h.1

pub get_or_past : (xs : List ℕ) (i : ℕ) → length xs ≤ i → get_or xs i 0 ≡ 0
get_or_past [] i h = refl
get_or_past (x ∷ xs) zero h = absurd (omega arith)
get_or_past (x ∷ xs) (suc i) h = get_or_past xs i (omega arith)

-- One power of 2 ^ 32 more.
pub scale_suc : (v n : ℕ) → v * (2 ^ 32) ^ suc n ≡ 2 ^ 32 * (v * (2 ^ 32) ^ n)
scale_suc v n = ap (λ p. v * p) (pow-succ' (2 ^ 32) n) ∙ mul_left_comm v (2 ^ 32) ((2 ^ 32) ^ n)

pub value-bound : (xs : List ℕ) → AreLimbs xs → value xs < (2 ^ 32) ^ length xs
unfolding value
value-bound [] h = omega arith
value-bound (x ∷ xs) h = omega (arith, h.0, value-bound xs h.1, pow-succ' (2 ^ 32) (length xs))

-- Padding to a common length keeps the values.
pub pad_biguints-value :
    (a b : List ℕ)
    → AreLimbs a
    → AreLimbs b
    → AreLimbs (pad_biguints a b).0
      × AreLimbs (pad_biguints a b).1
      × (value (pad_biguints a b).0 ≡ value a)
      × (value (pad_biguints a b).1 ≡ value b)
      × (length (pad_biguints a b).0 ≡ max (length a) (length b))
      × (length (pad_biguints a b).1 ≡ max (length a) (length b))
unfolding pad_biguints
pad_biguints-value a b la lb = elim (Bool-cases (ltb (length b) (length a))) [
  | inl e ↦
      let n = length a - length b in
      rw e (
        la,
        AreLimbs-append_zeros b n lb,
        refl,
        value-append_zeros b n,
        omega (tests, e),
        omega (tests, e, length-append b (replicate n 0), length-replicate {A = ℕ} n 0),
      )
  | inr e ↦
      let n = length b - length a in
      let h = ltb_false→le (length b) (length a) e in
      rw e (
        AreLimbs-append_zeros a n la,
        lb,
        value-append_zeros a n,
        refl,
        omega (arith, h, length-append a (replicate n 0), length-replicate {A = ℕ} n 0),
        omega (arith, h),
      )
]

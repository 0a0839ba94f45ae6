-- ===== src/Uint/Order.antt =====
-- `lte` on integers of `c` limbs compares the values.
use native.Mathlib.Nat.{pow-succ', mul-le-mul_right, one-le-pow}
use succinctx.Prelude.{
  ℕ, zero, suc, ◌+◌, ◌*◌, ◌^◌, ◌≤◌, ◌<◌, ◌≡◌, refl, sym, ap, ap₂, ◌∙◌, inl, inr, Bool, true, false,
  List, [], ◌∷◌, arith, ltb, leb, ◌==◌, if◌then◌else◌, ltb→lt, Bool-cases, length, get_or, take,
}
use succinctx.Uint.Gadgets.{comparison}
use succinctx.Uint.Value.{value, AreLimbs, scale_suc}
use succinctx.Uint.UintN.{lte_u32, lte_loop, lte}

value-take-suc :
    (n : ℕ) (xs : List ℕ)
    → value (take (suc n) xs) ≡ value (take n xs) + get_or xs n 0 * (2 ^ 32) ^ n
unfolding value
value-take-suc zero [] = refl
value-take-suc zero (x ∷ xs) = omega arith
value-take-suc (suc n) [] = omega arith
value-take-suc (suc n) (x ∷ xs) = omega (arith, value-take-suc n xs, scale_suc (get_or xs n 0) n)

value-take_bound : (n : ℕ) (xs : List ℕ) → AreLimbs xs → value (take n xs) < (2 ^ 32) ^ n
unfolding value
value-take_bound zero xs l = omega arith
value-take_bound (suc n) [] l = one-le-pow (suc n) (2 ^ 32) (omega arith)
value-take_bound (suc n) (x ∷ xs) l =
    omega (arith, l.0, value-take_bound n xs l.1, pow-succ' (2 ^ 32) n)

-- The highest limbs decide unless they are equal.
high_limb :
    (p v w x y : ℕ)
    → v < p
    → w < p
    → (if x == y then leb v w else leb x y) ≡ leb (v + x * p) (w + y * p)
high_limb p v w x y hv hw = elim (Bool-cases (ltb x y)) [
  | inl e ↦
      let above : suc x * p ≤ y * p = mul-le-mul_right p (ltb→lt x y e) in ground (arith, above)
  | inr e ↦ elim (Bool-cases (ltb y x)) [
    | inl e' ↦
        let below : suc y * p ≤ x * p = mul-le-mul_right p (ltb→lt y x e') in ground (arith, below)
    | inr e' ↦ let same : x ≡ y = ground arith in ground (arith, same, ap (λ n. n * p) same)
  ]
]

lte_u32-leb : (x y : ℕ) → lte_u32 x y ≡ leb x y
unfolding lte_u32 comparison
lte_u32-leb x y = ground arith

lte_loop-value :
    (left : ℕ) (acc equal : Bool) (a b : List ℕ)
    → AreLimbs a
    → AreLimbs b
    → lte_loop left acc equal a b
      ≡ (if equal then leb (value (take left a)) (value (take left b)) else acc)
unfolding lte_loop value
lte_loop-value zero false false a b la lb = refl
lte_loop-value zero false true a b la lb = refl
lte_loop-value zero true false a b la lb = refl
lte_loop-value zero true true a b la lb = refl
lte_loop-value (suc left) acc false a b la lb = lte_loop-value left acc false a b la lb
lte_loop-value (suc left) acc true a b la lb =
    let x = get_or a left 0 in
    let y = get_or b left 0 in
    lte_loop-value left (lte_u32 x y) (x == y) a b la lb
    ∙ ap (λ t. if x == y then leb (value (take left a)) (value (take left b)) else t)
        (lte_u32-leb x y)
    ∙ high_limb ((2 ^ 32) ^ left) (value (take left a)) (value (take left b)) x y
        (value-take_bound left a la) (value-take_bound left b lb)
    ∙ sym (ap₂ leb (value-take-suc left a) (value-take-suc left b))

take_all : (n : ℕ) (xs : List ℕ) → length xs ≡ n → take n xs ≡ xs
take_all zero [] h = refl
take_all zero (x ∷ xs) h = absurd (omega arith)
take_all (suc n) [] h = refl
take_all (suc n) (x ∷ xs) h = ap (λ r. x ∷ r) (take_all n xs (omega arith))

-- For two integers of c limbs below 2 ^ 32, lte is true if and only if the first value is at most
-- the second one.
pub lte-value :
    (c : ℕ) (a b : List ℕ)
    → AreLimbs a
    → AreLimbs b
    → length a ≡ c
    → length b ≡ c
    → lte c a b ≡ leb (value a) (value b)
unfolding lte
lte-value c a b la lb ha hb =
    lte_loop-value c false true a b la lb
    ∙ ap₂ (λ v w. leb (value v) (value w)) (take_all c a ha) (take_all c b hb)

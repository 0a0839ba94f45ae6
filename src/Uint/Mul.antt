-- ===== src/Uint/Mul.antt =====
-- `mul_biguint` computes the product: the columns that it collects, and how many entries they have.
use native.Mathlib.Nat.{pow-succ', add-zero, mul-le-mul}
use mathlib.Core.Path.{subst}
use succinctx.Prelude.{
  ℕ, zero, suc, ◌+◌, ◌-◌, ◌*◌, ◌/◌, ◌^◌, ◌≤◌, ◌<◌, ◌≡◌, refl, sym, ap, ◌∙◌, List, [], ◌∷◌, ◌++◌,
  arith, ltb, ◌==◌, if◌then◌else◌, length, length-append, ok,
}
use succinctx.Uint.Gadgets.{sum, mul_u32, mul_add_u32}
use succinctx.Uint.BigUint.{push_at, row_loop}
use succinctx.Uint.Value.{value, AreLimbs, scale_suc}

-- The number that the columns add up to.
unfoldable pub columns_value : List (List ℕ) → ℕ
unfolding sum
columns_value [] = 0
columns_value (c ∷ cs) = sum c + 2 ^ 32 * columns_value cs

-- Every entry is a limb, and the column at index `i` has at most `height i` of them.
abbrev pub AreColumns : (ℕ → ℕ) → List (List ℕ) → Type 0
AreColumns height [] = Unit {0}
AreColumns height (c ∷ cs) =
    (AreLimbs c × (length c ≤ height 0)) × AreColumns (λ i. height (suc i)) cs

pub AreColumns-le :
    (height bound : ℕ → ℕ) (cs : List (List ℕ))
    → ((i : ℕ) → height i ≤ bound i)
    → AreColumns height cs
    → AreColumns bound cs
AreColumns-le height bound [] h cols = tt
AreColumns-le height bound (c ∷ cs) h cols = (
  (cols.0.0, omega (arith, cols.0.1, h 0)),
  AreColumns-le (λ i. height (suc i)) (λ i. bound (suc i)) cs (λ i. h (suc i)) cols.1,
)

pub sum-append : (xs : List ℕ) (v : ℕ) → sum (xs ++ (v ∷ [])) ≡ sum xs + v
unfolding sum
sum-append [] v = omega arith
sum-append (x ∷ xs) v = omega (arith, sum-append xs v)

AreLimbs-push : (xs : List ℕ) (v : ℕ) → AreLimbs xs → v < 2 ^ 32 → AreLimbs (xs ++ (v ∷ []))
AreLimbs-push [] v l h = (h, tt)
AreLimbs-push (x ∷ xs) v l h = (l.0, AreLimbs-push xs v l.1 h)

-- One entry more in column `k`.
pub push_at-ok :
    (k v : ℕ) (height : ℕ → ℕ) (cs : List (List ℕ))
    → k < length cs
    → v < 2 ^ 32
    → AreColumns height cs
    → (cs' : List (List ℕ)) × (push_at k v cs ≡ ok cs')
      × (length cs' ≡ length cs)
      × AreColumns (λ i. if i == k then height i + 1 else height i) cs'
      × (columns_value cs' ≡ columns_value cs + v * (2 ^ 32) ^ k)
unfolding push_at columns_value
push_at-ok k v height [] h hv cols = absurd (omega arith)
push_at-ok zero v height (c ∷ cs) h hv cols = (
  (c ++ (v ∷ [])) ∷ cs,
  refl,
  refl,
  (
    (AreLimbs-push c v cols.0.0 hv, omega (arith, length-append c (v ∷ []), cols.0.1)),
    AreColumns-le (λ i. height (suc i)) _ cs (λ i. ground arith) cols.1,
  ),
  omega (arith, sum-append c v),
)
push_at-ok (suc k) v height (c ∷ cs) h hv cols =
    let (cs', e, len, cols', eq) =
      push_at-ok k v (λ i. height (suc i)) cs (omega arith) hv cols.1 in
    (
      c ∷ cs',
      rw e,
      ap suc len,
      ((cols.0.0, ground arith), AreColumns-le _ _ cs' (λ i. ground arith) cols'),
      omega (arith, eq, scale_suc v k),
    )

mul_u32_high : (x y : ℕ) → x < 2 ^ 32 → y < 2 ^ 32 → (x * y + 0) / 2 ^ 32 < 2 ^ 32
mul_u32_high x y hx hy =
    let h : x * y ≤ (2 ^ 32 - 1) * (2 ^ 32 - 1) =
      mul-le-mul {n₂ = 2 ^ 32 - 1} {m₂ = 2 ^ 32 - 1} (omega arith) (omega arith) in
    omega (arith, h)

mul_u32_lem :
    (x y : ℕ)
    → x < 2 ^ 32
    → y < 2 ^ 32
    → ((mul_u32 x y).0 < 2 ^ 32)
      × ((mul_u32 x y).1 < 2 ^ 32)
      × ((mul_u32 x y).0 + 2 ^ 32 * (mul_u32 x y).1 ≡ x * y)
unfolding mul_u32 mul_add_u32
mul_u32_lem x y hx hy = (omega arith, mul_u32_high x y hx hy, omega arith)

-- The heights while row `i` is added, when its entries below column `k` are done.
abbrev pub row_height : ℕ → ℕ → ℕ → ℕ
row_height m k i = if ltb i k then m + 2 else if i == k then m + 1 else m

row_height-step :
    (m k i : ℕ)
    → (if i == k + 1
        then (if i == k then row_height m k i + 1 else row_height m k i) + 1
        else if i == k
        then row_height m k i + 1
        else row_height m k i)
      ≤ row_height m (k + 1) i
row_height-step m k i = ground arith

row_step :
    (x y lo hi c c₁ c₂ c₃ w k : ℕ)
    → lo + 2 ^ 32 * hi ≡ x * y
    → c₁ ≡ c + lo * (2 ^ 32) ^ k
    → c₂ ≡ c₁ + hi * (2 ^ 32) ^ (k + 1)
    → c₃ ≡ c₂ + x * w * (2 ^ 32) ^ (k + 1)
    → c₃ ≡ c + x * (y + 2 ^ 32 * w) * (2 ^ 32) ^ k
row_step x y lo hi c c₁ c₂ c₃ w k split v₁ v₂ v₃ =
    let e : suc k ≡ k + 1 = omega arith in
    let p : (2 ^ 32) ^ (k + 1) ≡ 2 ^ 32 * (2 ^ 32) ^ k =
      ap (λ n. (2 ^ 32) ^ n) (sym e) ∙ pow-succ' (2 ^ 32) k in
    omega (arith, ap (λ n. n * (2 ^ 32) ^ k) split, rw p at v₂, rw p at v₃)

-- One row: `x * b`, from column `i + j` on.
pub row_loop-ok :
    (i x : ℕ) (ys : List ℕ) (j m : ℕ) (cs : List (List ℕ))
    → i + j + length ys < length cs
    → x < 2 ^ 32
    → AreLimbs ys
    → AreColumns (row_height m (i + j)) cs
    → (cs' : List (List ℕ)) × (row_loop i x ys j cs ≡ ok cs')
      × (length cs' ≡ length cs)
      × AreColumns (row_height m (i + j + length ys)) cs'
      × (columns_value cs' ≡ columns_value cs + x * value ys * (2 ^ 32) ^ (i + j))
unfolding row_loop value
row_loop-ok i x [] j m cs h hx ly cols = (cs, refl, refl, rw (add-zero (i + j)) cols, omega arith)
row_loop-ok i x (y ∷ ys) j m cs h hx ly cols =
    let (lo, hi, split) = mul_u32_lem x y hx ly.0 in
    let assoc : i + (j + 1) ≡ i + j + 1 = omega arith in
    let (cs₁, e₁, len₁, cols₁, v₁) =
      push_at-ok (i + j) (mul_u32 x y).0 _ cs (omega arith) lo cols in
    let (cs₂, e₂, len₂, cols₂, v₂) =
      push_at-ok (i + j + 1) (mul_u32 x y).1 _ cs₁ (omega arith) hi cols₁ in
    let (cs₃, e₃, len₃, cols₃, v₃) =
      row_loop-ok i x ys (j + 1) m cs₂ (omega (arith, len₁, len₂)) hx ly.1 (
        subst (λ k. AreColumns (row_height m k) cs₂) (omega arith)
          (AreColumns-le _ _ cs₂ (row_height-step m (i + j)) cols₂)) in
    (
      cs₃,
      rw (e₁, e₂) e₃,
      len₃ ∙ len₂ ∙ len₁,
      subst (λ k. AreColumns (row_height m k) cs₃) (omega arith) cols₃,
      row_step x y _ _ _ _ _ _ (value ys) (i + j) split v₁ v₂
          (v₃ ∙ ap (λ k. columns_value cs₂ + x * value ys * (2 ^ 32) ^ k) assoc),
    )

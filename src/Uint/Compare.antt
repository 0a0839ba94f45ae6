-- ===== src/Uint/Compare.antt =====
-- `cmp_biguint` compares the values.
use succinctx.Prelude.{
  ℕ, ◌+◌, ◌-◌, ◌*◌, ◌^◌, ◌<◌, ◌≡◌, refl, sym, ap, ap₂, ◌∙◌, List, [], ◌∷◌, arith, ltb, leb, ◌==◌,
  if◌then◌else◌, length, ok,
}
use succinctx.Uint.Gadgets.{comparison, list_lte_loop, list_le_u32_circuit}
use succinctx.Uint.BigUint.{pad_biguints, cmp_biguint}
use succinctx.Uint.Value.{value, AreLimbs, pad_biguints-value}

lte_step : ℕ → ℕ → ℕ → ℕ
lte_step result a b = if a == b then result else if ltb a b then 1 else 0

lte_step-limb :
    (result x y : ℕ)
    → comparison x y * comparison y x * result + (1 - comparison y x) ≡ lte_step result x y
unfolding comparison lte_step
lte_step-limb result x y = ground arith

lte_step-one : (a b : ℕ) → lte_step 1 a b ≡ (if leb a b then 1 else 0)
unfolding lte_step
lte_step-one a b = ground arith

-- A higher limb decides before a lower one.
lte_step-lte_step :
    (result x y v w : ℕ)
    → x < 2 ^ 32
    → y < 2 ^ 32
    → lte_step (lte_step result x y) v w ≡ lte_step result (x + 2 ^ 32 * v) (y + 2 ^ 32 * w)
unfolding lte_step
lte_step-lte_step result x y v w hx hy = ground arith

list_lte_loop-value :
    (result : ℕ) (xs ys : List ℕ)
    → AreLimbs xs
    → AreLimbs ys
    → length xs ≡ length ys
    → list_lte_loop result xs ys ≡ ok (lte_step result (value xs) (value ys))
unfolding list_lte_loop value lte_step
list_lte_loop-value result [] [] lx ly h = refl
list_lte_loop-value result [] (y ∷ ys) lx ly h = absurd (omega arith)
list_lte_loop-value result (x ∷ xs) [] lx ly h = absurd (omega arith)
list_lte_loop-value result (x ∷ xs) (y ∷ ys) lx ly h = rw (
  lte_step-limb result x y,
  list_lte_loop-value (lte_step result x y) xs ys lx.1 ly.1 (omega arith),
  lte_step-lte_step result x y (value xs) (value ys) lx.0 ly.0,
)

-- For limbs below 2 ^ 32, cmp_biguint returns 1 if the first value is at most the second one, and
-- 0 otherwise.
pub cmp_biguint-value :
    (a b : List ℕ)
    → AreLimbs a
    → AreLimbs b
    → cmp_biguint a b ≡ ok (if leb (value a) (value b) then 1 else 0)
unfolding cmp_biguint list_le_u32_circuit
cmp_biguint-value a b la lb =
    let (pa, pb, va, vb, ha, hb) = pad_biguints-value a b la lb in
    list_lte_loop-value 1 (pad_biguints a b).0 (pad_biguints a b).1 pa pb (ha ∙ sym hb)
    ∙ ap₂ (λ v w. ok (lte_step 1 v w)) va vb
    ∙ ap ok (lte_step-one (value a) (value b))

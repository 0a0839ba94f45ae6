-- ===== src/Gates/Generator.antt =====
-- What the generators of the gates share: they set wires to the limbs of numbers.
use native.Mathlib.Nat.{pow-succ'}
use mathlib.Core.Path.{subst}
use succinctx.Prelude.{
  ℕ, zero, suc, ◌+◌, ◌-◌, ◌*◌, ◌/◌, ◌%◌, ◌^◌, ◌≤◌, ◌<◌, min, ◌≡◌, refl, sym, ap, ap₂, ◌∙◌, inl, inr,
  List, [], ◌∷◌, ◌++◌, arith, ltb, ◌==◌, ltb→lt, ltb_false→le, ==_iff, Bool-cases,
}
use succinctx.Gates.Field.{Field, order, All, AllZero, sub-eq-zero}
use succinctx.Gates.Limbs.{product_loop, range_product, limbs_loop, from-limb}

-- plonky2's `to_canonical_u64`: the number below the order that an element is.
pub record Canonical (f : Field) : Type 0 where
  pub to_canonical_u64 : f.F → ℕ
  pub to-from : (n : ℕ) → n < order → to_canonical_u64 (f.from_canonical n) ≡ n
  pub to-sub :
      (m n : ℕ)
      → m < n
      → n < order
      → to_canonical_u64 (f.sub (f.from_canonical m) (f.from_canonical n)) ≡ order + m - n

pub zero_plus : (k : ℕ) → 0 + k ≡ k
zero_plus k = omega arith

-- n without its lowest j digits to the base 4.
unfoldable pub shift : ℕ → ℕ → ℕ
shift n zero = n
shift n (suc j) = shift (n / 4) j

shift-div : (n j : ℕ) → shift (n / 4) j ≡ shift n j / 4
unfolding shift
shift-div n zero = refl
shift-div n (suc j) = shift-div (n / 4) j

pub shift-zero : (n j : ℕ) → n < 4 ^ j → shift n j ≡ 0
unfolding shift
shift-zero n zero h = omega arith
shift-zero n (suc j) h =
    let p : 4 ^ suc j ≡ 4 * 4 ^ j = pow-succ' 4 j in shift-zero (n / 4) j (omega (arith, p))

module _ (f : Field) where
  open f use {F, zero_f, one_f, add, sub, mul, from_canonical}

  -- Every wire of the buffer has the value that is set there.
  abbrev pub AreSet : (ℕ → F) → List (ℕ × F) → Type 0
  AreSet w out_buffer = All (λ e. w e.0 ≡ e.1) out_buffer

  -- The scan with the accumulator `acc`.
  unfoldable pub scan_limbs : ℕ → ℕ → List F
  scan_limbs zero acc = []
  scan_limbs (suc left) acc = from_canonical (acc % 4) ∷ scan_limbs left (acc / 4)

  -- The limbs of a number with a low and a high part.
  pub scan_limbs-split :
      (a b t r h n : ℕ)
      → t ≡ a + b
      → n ≡ r + 4 ^ a * h
      → r < 4 ^ a
      → scan_limbs t n ≡ scan_limbs a r ++ scan_limbs b h
  unfolding scan_limbs
  scan_limbs-split zero b t r h n e e' l = ap₂ scan_limbs (omega arith) (omega arith)
  scan_limbs-split (suc a) b zero r h n e e' l = absurd (omega arith)
  scan_limbs-split (suc a) b (suc t) r h n e e' l =
      let p : 4 ^ suc a * h ≡ 4 * (4 ^ a * h) = ap (λ x. x * h) (pow-succ' 4 a) ∙ omega arith in
      let q : 4 ^ suc a ≡ 4 * 4 ^ a = pow-succ' 4 a in
      ap₂ (λ x xs. from_canonical x ∷ xs) (omega (arith, e', p))
        (scan_limbs-split a b t (r / 4) h (n / 4) (omega arith) (omega (arith, e', p))
          (omega (arith, l, q)))

  product_loop-zero :
      (left x : ℕ) (product limb : F)
      → product ≡ zero_f
      → product_loop f left x product limb ≡ zero_f
  unfolding product_loop
  product_loop-zero zero x product limb e = e
  product_loop-zero (suc left) x product limb e =
      product_loop-zero left (x + 1) (mul product (sub limb (from_canonical x))) limb (
        f.mul_comm product (sub limb (from_canonical x))
        ∙ ap (λ a. mul (sub limb (from_canonical x)) a) e
        ∙ f.mul_zero (sub limb (from_canonical x)))

  product_loop-range :
      (left x k : ℕ) (product : F)
      → x ≤ k
      → k < x + left
      → product_loop f left x product (from_canonical k) ≡ zero_f
  unfolding product_loop
  product_loop-range zero x k product h h' = absurd (omega arith)
  product_loop-range (suc left) x k product h h' = elim (Bool-cases (x == k)) [
    | inl e ↦
        product_loop-zero left (x + 1) (mul product (sub (from_canonical k) (from_canonical x)))
          (from_canonical k)
          (ap (λ a. mul product a)
              ((sub-eq-zero f _ _).1 (ap from_canonical (sym ((==_iff x k).0 e))))
            ∙ f.mul_zero product)
    | inr e ↦
        product_loop-range left (x + 1) k (mul product (sub (from_canonical k) (from_canonical x)))
          (ground (arith, e)) (omega arith)
  ]

  -- A limb below 4 meets its constraint.
  pub range_product-zero : (k : ℕ) → k < 4 → range_product f (from_canonical k) ≡ zero_f
  unfolding range_product
  range_product-zero k h = product_loop-range 4 0 k one_f (omega arith) (omega arith)

  -- The wires from number `j` on with the values.
  unfoldable pub set_limbs : (ℕ → ℕ) → ℕ → List F → List (ℕ × F)
  set_limbs at_wire j [] = []
  set_limbs at_wire j (v ∷ values) = (at_wire j, v) ∷ set_limbs at_wire (j + 1) values

  digits-cons :
      (w : ℕ → F) (at_wire : ℕ → ℕ) (left j n : ℕ)
      → w (at_wire j) ≡ from_canonical (n % 4)
      → ((k : ℕ) → k < left → w (at_wire (j + 1 + k)) ≡ from_canonical (shift (n / 4) k % 4))
      → (k : ℕ) → k < suc left
      → w (at_wire (j + k)) ≡ from_canonical (shift n k % 4)
  unfolding shift
  digits-cons w at_wire left j n e digits zero l = ap (λ i. w (at_wire i)) (omega arith) ∙ e
  digits-cons w at_wire left j n e digits (suc k) l =
      ap (λ i. w (at_wire i)) (omega arith) ∙ digits k (omega arith)

  -- The wires that are set hold the digits, and the other values follow.
  pub set_limbs-digits :
      (w : ℕ → F) (at_wire : ℕ → ℕ) (left j n : ℕ) (rest : List F)
      → AreSet w (set_limbs at_wire j (scan_limbs left n ++ rest))
      → ((k : ℕ) → k < left → w (at_wire (j + k)) ≡ from_canonical (shift n k % 4))
        × AreSet w (set_limbs at_wire (j + left) rest)
  unfolding set_limbs scan_limbs shift
  set_limbs-digits w at_wire zero j n rest h = (
    λ k l. absurd (omega arith),
    subst (λ i. AreSet w (set_limbs at_wire i rest)) (omega arith) h,
  )
  set_limbs-digits w at_wire (suc left) j n rest h =
      let (digits, after) = set_limbs-digits w at_wire left (j + 1) (n / 4) rest h.1 in
      (
        digits-cons w at_wire left j n h.0 digits,
        subst (λ i. AreSet w (set_limbs at_wire i rest)) (omega arith) after,
      )

  range_product-set :
      (n : ℕ) {limb : F} → limb ≡ from_canonical (n % 4) → range_product f limb ≡ zero_f
  range_product-set n e = ap (range_product f) e ∙ range_product-zero (n % 4) (omega arith)

  -- The next digit.
  shift-limb :
      (n j : ℕ) {acc limb : F}
      → acc ≡ from_canonical (shift n (suc j))
      → limb ≡ from_canonical (shift n j % 4)
      → add (mul (from_canonical 4) acc) limb ≡ from_canonical (shift n j)
  unfolding shift
  shift-limb n j e e' =
      let p = shift-div n j in
      from-limb f (shift (n / 4) j) (shift n j % 4) e e' ∙ ap from_canonical (omega (arith, p))

  -- Limbs that hold the digits of two numbers meet their constraints and make the numbers.
  pub limbs_loop-set :
      (limb : ℕ → F) (midpoint left l h : ℕ) (low high : F)
      → ((k : ℕ) → k < left → k < midpoint → limb k ≡ from_canonical (shift l k % 4))
      → ((k : ℕ) → midpoint + k < left → limb (midpoint + k) ≡ from_canonical (shift h k % 4))
      → low ≡ from_canonical (shift l (min left midpoint))
      → high ≡ from_canonical (shift h (left - midpoint))
      → AllZero f (limbs_loop f limb midpoint left low high).0
        × ((limbs_loop f limb midpoint left low high).1 ≡ from_canonical l)
        × ((limbs_loop f limb midpoint left low high).2 ≡ from_canonical h)
  unfolding limbs_loop shift
  limbs_loop-set limb midpoint zero l h low high lows highs el eh =
      let none_low : min 0 midpoint ≡ 0 = omega arith in
      let none_high : 0 - midpoint ≡ 0 = omega arith in
      (
        tt,
        el ∙ ap (λ k. from_canonical (shift l k)) none_low,
        eh ∙ ap (λ k. from_canonical (shift h k)) none_high,
      )
  limbs_loop-set limb midpoint (suc left) l h low high lows highs el eh =
      elim (Bool-cases (ltb left midpoint)) [
        | inl e ↦
            let below = ltb→lt left midpoint e in
            let digit : limb left ≡ from_canonical (shift l left % 4) =
              lows left (omega arith) below in
            let before : min (suc left) midpoint ≡ suc left = omega (arith, below) in
            let after : min left midpoint ≡ left = omega (arith, below) in
            let same : suc left - midpoint ≡ left - midpoint = omega (arith, below) in
            let (z, el', eh') =
              limbs_loop-set limb midpoint left l h (add (mul (from_canonical 4) low) (limb left))
                high (λ k b b'. lows k (omega arith) b') (λ k b. highs k (omega arith))
                (shift-limb l left (el ∙ ap (λ k. from_canonical (shift l k)) before) digit
                  ∙ ap (λ k. from_canonical (shift l k)) (sym after))
                (eh ∙ ap (λ k. from_canonical (shift h k)) same) in
            rw e ((range_product-set (shift l left) digit, z), el', eh')
        | inr e ↦
            let above = ltb_false→le left midpoint e in
            let k = left - midpoint in
            let place : midpoint + k ≡ left = omega (arith, above) in
            let digit : limb left ≡ from_canonical (shift h k % 4) =
              ap limb (sym place) ∙ highs k (omega (arith, above)) in
            let before : suc left - midpoint ≡ suc k = omega (arith, above) in
            let same : min (suc left) midpoint ≡ min left midpoint = omega (arith, above) in
            let (z, el', eh') =
              limbs_loop-set limb midpoint left l h low
                (add (mul (from_canonical 4) high) (limb left))
                (λ k' b b'. lows k' (omega arith) b') (λ k' b. highs k' (omega arith))
                (el ∙ ap (λ i. from_canonical (shift l i)) same)
                (shift-limb h k (eh ∙ ap (λ i. from_canonical (shift h i)) before) digit) in
            rw e ((range_product-set (shift h k) digit, z), el', eh')
      ]

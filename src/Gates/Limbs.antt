-- ===== src/Gates/Limbs.antt =====
-- The limbs of two bits that the gates split their outputs into.
use succinctx.Prelude.{
  ℕ, zero, suc, ◌+◌, ◌*◌, ◌<◌, ◌≡◌, sym, ap, ap₂, ◌∙◌, ◌≢◌, ◌⊎◌, inl, inr, List, [], ◌∷◌, arith,
  ltb, if◌then◌else◌,
}
use succinctx.Gates.Field.{Field, IsDomain, sub-eq-zero}

module _ (f : Field) where
  open f use {F, zero_f, one_f, add, sub, mul, from_canonical}

  -- The product of `this_limb - x` for `left` numbers `x`.
  unfoldable pub product_loop : ℕ → ℕ → F → F → F
  product_loop zero x product this_limb = product
  product_loop (suc left) x product this_limb =
      product_loop left (x + 1) (mul product (sub this_limb (from_canonical x))) this_limb

  -- For the two bits of a limb.
  unfoldable pub range_product : F → F
  unfolding product_loop
  range_product this_limb = product_loop 4 0 one_f this_limb

  -- The limbs below index `left`, the highest first: their products, and the numbers that the limbs
  -- below `midpoint` and the others make.
  unfoldable pub limbs_loop : (ℕ → F) → ℕ → ℕ → F → F → List F × F × F
  unfolding range_product
  limbs_loop limb midpoint zero low high = ([], low, high)
  limbs_loop limb midpoint (suc left) low high =
      let this_limb = limb left in
      let low' = if ltb left midpoint then add (mul (from_canonical 4) low) this_limb else low in
      let high' = if ltb left midpoint then high else add (mul (from_canonical 4) high) this_limb in
      let (products, low'', high'') = limbs_loop limb midpoint left low' high' in
      (range_product this_limb ∷ products, low'', high'')

  module _ (d : IsDomain f) where
    pub product_loop-factor :
        (left x : ℕ) (product this_limb : F)
        → product_loop left x product this_limb ≡ zero_f
        → (product ≡ zero_f) ⊎ ((k : ℕ) × (k < x + left) × (this_limb ≡ from_canonical k))
    unfolding product_loop
    product_loop-factor zero x product this_limb e = inl e
    product_loop-factor (suc left) x product this_limb e =
        elim (product_loop-factor left (x + 1) _ this_limb e) [
          | inr (k, h, e') ↦ inr (k, omega arith, e')
          | inl e' ↦ elim (d.factor product (sub this_limb (from_canonical x)) e') [
            | inl e'' ↦ inl e''
            | inr e'' ↦ inr (x, omega arith, (sub-eq-zero f this_limb (from_canonical x)).0 e'')
          ]
        ]

    pub one-ne-zero : one_f ≢ zero_f
    one-ne-zero e =
        let h : ◌≡◌ {A = ℕ} 1 0 =
          d.injective 1 0 (omega arith) (omega arith) (f.from_one ∙ e ∙ sym f.from_zero) in
        omega arith

    -- A limb whose product is zero is a number below 4.
    pub range_product_sound :
        (this_limb : F)
        → range_product this_limb ≡ zero_f
        → (k : ℕ) × (k < 4) × (this_limb ≡ from_canonical k)
    unfolding range_product
    range_product_sound this_limb e = elim (product_loop-factor 4 0 one_f this_limb e) [
      | inl e' ↦ absurd (one-ne-zero e')
      | inr (k, h, e') ↦ (k, omega arith, e')
    ]

  -- A limb added to a number.
  pub from-limb :
      (v k : ℕ) {acc this_limb : F}
      → acc ≡ from_canonical v
      → this_limb ≡ from_canonical k
      → add (mul (from_canonical 4) acc) this_limb ≡ from_canonical (4 * v + k)
  from-limb v k e e' =
      ap₂ (λ a b. add (mul (from_canonical 4) a) b) e e'
      ∙ ap (λ a. add a (from_canonical k)) (sym (f.from_mul 4 v))
      ∙ sym (f.from_add (4 * v) k)

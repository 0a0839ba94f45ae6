-- ===== src/Gates/Packed.antt =====
-- The limbs as `eval_unfiltered_base_packed` combines them, with the base as the second factor.
use succinctx.Prelude.{ℕ, zero, suc, ◌≡◌, refl, List, [], ◌∷◌, ltb, if◌then◌else◌}
use succinctx.Gates.Field.{Field}
use succinctx.Gates.Limbs.{limbs_loop, range_product}

module _ (f : Field) where
  open f use {F, add, mul, from_canonical}

  unfoldable pub packed_limbs_loop : (ℕ → F) → ℕ → ℕ → F → F → List F × F × F
  packed_limbs_loop limb midpoint zero low high = ([], low, high)
  packed_limbs_loop limb midpoint (suc left) low high =
      let this_limb = limb left in
      let low' = if ltb left midpoint then add (mul low (from_canonical 4)) this_limb else low in
      let high' = if ltb left midpoint then high else add (mul high (from_canonical 4)) this_limb in
      let (products, low'', high'') = packed_limbs_loop limb midpoint left low' high' in
      (range_product f this_limb ∷ products, low'', high'')

  pub packed_limbs_loop_lem :
      (limb : ℕ → F) (midpoint left : ℕ) (low high : F)
      → packed_limbs_loop limb midpoint left low high ≡ limbs_loop f limb midpoint left low high
  unfolding packed_limbs_loop limbs_loop
  packed_limbs_loop_lem limb midpoint zero low high = refl
  packed_limbs_loop_lem limb midpoint (suc left) low high = rw (
    f.mul_comm low (from_canonical 4),
    f.mul_comm high (from_canonical 4),
    packed_limbs_loop_lem limb midpoint left
        (if ltb left midpoint then add (mul (from_canonical 4) low) (limb left) else low)
        (if ltb left midpoint then high else add (mul (from_canonical 4) high) (limb left)),
  )

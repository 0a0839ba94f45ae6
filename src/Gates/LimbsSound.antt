-- ===== src/Gates/LimbsSound.antt =====
-- Limbs that meet their constraints make numbers of two bits a limb.
use native.Mathlib.Nat.{pow-succ'}
use mathlib.Core.Path.{subst}
use succinctx.Prelude.{
  ℕ, zero, suc, ◌+◌, ◌-◌, ◌*◌, ◌^◌, ◌<◌, min, ◌≡◌, ap, inl, inr, arith, ltb, ltb_false→le, tests,
  Bool-cases,
}
use succinctx.Gates.Field.{Field, IsDomain, AllZero}
use succinctx.Gates.Limbs.{limbs_loop, range_product_sound, from-limb}

grow : (v k s t : ℕ) → v < 4 ^ s → k < 4 → suc s ≡ t → 4 * v + k < 4 ^ t
grow v k s t h h' e =
    let p : 4 ^ suc s ≡ 4 * 4 ^ s = pow-succ' 4 s in
    let q : 4 ^ suc s ≡ 4 ^ t = ap (λ n. 4 ^ n) e in omega (arith, p, q)

module _ (f : Field) (d : IsDomain f) (limb : ℕ → f.F) (midpoint : ℕ) where
  open f use {F, zero_f, from_canonical}

  -- The two numbers have as many digits to the base 4 as there were before, and one for each limb.
  pub limbs_loop_sound :
      (left s t v w : ℕ) (low high : F)
      → low ≡ from_canonical v
      → high ≡ from_canonical w
      → v < 4 ^ s
      → w < 4 ^ t
      → AllZero f (limbs_loop f limb midpoint left low high).0
      → (l : ℕ) × (h : ℕ) × ((limbs_loop f limb midpoint left low high).1 ≡ from_canonical l)
        × ((limbs_loop f limb midpoint left low high).2 ≡ from_canonical h)
        × (l < 4 ^ (s + min left midpoint))
        × (h < 4 ^ (t + (left - midpoint)))
  unfolding limbs_loop
  limbs_loop_sound zero s t v w low high el eh bv bw z =
      let e : s ≡ s + min 0 midpoint = omega arith in
      let e' : t ≡ t + (0 - midpoint) = omega arith in
      (v, w, el, eh, subst (λ n. v < 4 ^ n) e bv, subst (λ n. w < 4 ^ n) e' bw)
  limbs_loop_sound (suc left) s t v w low high el eh bv bw z =
      let (k, hk, ek) = range_product_sound f d (limb left) z.0 in
      elim (Bool-cases (ltb left midpoint)) [
        | inl e ↦
            let z' = rw e at (z.1) in
            let (l, h, e₁, e₂, b₁, b₂) =
              limbs_loop_sound left (s + 1) t (4 * v + k) w _ high (from-limb f v k el ek) eh
                (grow v k s (s + 1) bv hk (omega arith)) bw z' in
            let p : s + 1 + min left midpoint ≡ s + min (suc left) midpoint = omega (tests, e) in
            let q : t + (left - midpoint) ≡ t + (suc left - midpoint) = omega (tests, e) in
            rw e (l, h, e₁, e₂, subst (λ n. l < 4 ^ n) p b₁, subst (λ n. h < 4 ^ n) q b₂)
        | inr e ↦
            let z' = rw e at (z.1) in
            let above = ltb_false→le left midpoint e in
            let (l, h, e₁, e₂, b₁, b₂) =
              limbs_loop_sound left s (t + 1) v (4 * w + k) low _ el (from-limb f w k eh ek) bv
                (grow w k t (t + 1) bw hk (omega arith)) z' in
            let p : s + min left midpoint ≡ s + min (suc left) midpoint = omega (arith, above) in
            let q : t + 1 + (left - midpoint) ≡ t + (suc left - midpoint) = omega (arith, above) in
            rw e (l, h, e₁, e₂, subst (λ n. l < 4 ^ n) p b₁, subst (λ n. h < 4 ^ n) q b₂)
      ]

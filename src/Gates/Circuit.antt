-- ===== src/Gates/Circuit.antt =====
-- The constraints as a circuit, which the recursive verifier checks: a target is the expression that
-- the calls of plonky2's `CircuitBuilder` build.
use mathlib.Core.List.{map-append}
use succinctx.Prelude.{
  ℕ, zero, suc, ◌+◌, ◌≡◌, refl, ap, ap₂, ◌∙◌, Bool, true, false, List, [], ◌∷◌, ◌++◌, map, ltb,
  if◌then◌else◌,
}
use succinctx.Gates.Field.{Field}
use succinctx.Gates.Limbs.{product_loop, limbs_loop, range_product}

module _ (f : Field) where
  open f use {F, zero_f, one_f, add, sub, mul, from_canonical}

  pub data ExtensionTarget : Type 0 where
    wire : ℕ → ExtensionTarget
    constant_extension : F → ExtensionTarget
    add_extension sub_extension mul_extension : ExtensionTarget → ExtensionTarget → ExtensionTarget
    mul_add_extension mul_sub_extension :
        ExtensionTarget → ExtensionTarget → ExtensionTarget → ExtensionTarget
    arithmetic_extension :
        F → F → ExtensionTarget → ExtensionTarget → ExtensionTarget → ExtensionTarget

  -- The value of a target, from the values of the wires.
  unfoldable pub target_value : (ℕ → F) → ExtensionTarget → F
  target_value w (wire n) = w n
  target_value w (constant_extension c) = c
  target_value w (add_extension a b) = add (target_value w a) (target_value w b)
  target_value w (sub_extension a b) = sub (target_value w a) (target_value w b)
  target_value w (mul_extension a b) = mul (target_value w a) (target_value w b)
  target_value w (mul_add_extension a b c) =
      add (mul (target_value w a) (target_value w b)) (target_value w c)
  target_value w (mul_sub_extension a b c) =
      sub (mul (target_value w a) (target_value w b)) (target_value w c)
  target_value w (arithmetic_extension const_0 const_1 a b c) =
      add (mul const_0 (mul (target_value w a) (target_value w b))) (mul const_1 (target_value w c))

  unfoldable pub circuit_product_loop : ℕ → ℕ → ExtensionTarget → ExtensionTarget → ExtensionTarget
  circuit_product_loop zero x product this_limb = product
  circuit_product_loop (suc left) x product this_limb =
      let x_target = constant_extension (from_canonical x) in
      let diff = sub_extension this_limb x_target in
      circuit_product_loop left (x + 1) (mul_extension product diff) this_limb

  unfoldable pub circuit_limbs_loop :
      (ℕ → ℕ)
      → ℕ
      → ℕ
      → ExtensionTarget
      → ExtensionTarget
      → List ExtensionTarget × ExtensionTarget × ExtensionTarget
  unfolding circuit_product_loop
  circuit_limbs_loop limb midpoint zero low high = ([], low, high)
  circuit_limbs_loop limb midpoint (suc left) low high =
      let base = constant_extension (from_canonical 4) in
      let this_limb = wire (limb left) in
      let product = circuit_product_loop 4 0 (constant_extension one_f) this_limb in
      let low' = if ltb left midpoint then mul_add_extension base low this_limb else low in
      let high' = if ltb left midpoint then high else mul_add_extension base high this_limb in
      let (products, low'', high'') = circuit_limbs_loop limb midpoint left low' high' in
      (product ∷ products, low'', high'')

  module _ (w : ℕ → F) where
    pub circuit_product_loop-value :
        (left x : ℕ) (product this_limb : ExtensionTarget)
        → target_value w (circuit_product_loop left x product this_limb)
          ≡ product_loop f left x (target_value w product) (target_value w this_limb)
    unfolding circuit_product_loop target_value product_loop
    circuit_product_loop-value zero x product this_limb = refl
    circuit_product_loop-value (suc left) x product this_limb =
        circuit_product_loop-value left (x + 1) _ this_limb

    if-value :
        (test : Bool) (a b : ExtensionTarget)
        → target_value w (if test then a else b)
          ≡ (if test then target_value w a else target_value w b)
    if-value true a b = refl
    if-value false a b = refl

    -- The values of the targets are what the loop on values computes.
    pub circuit_limbs_loop-value :
        (limb : ℕ → ℕ) (midpoint left : ℕ) (low high : ExtensionTarget) (v v' : F)
        → target_value w low ≡ v
        → target_value w high ≡ v'
        → let out = circuit_limbs_loop limb midpoint left low high in
          let out' = limbs_loop f (λ j. w (limb j)) midpoint left v v' in
          (map (target_value w) out.0 ≡ out'.0)
          × (target_value w out.1 ≡ out'.1)
          × (target_value w out.2 ≡ out'.2)
    unfolding circuit_limbs_loop limbs_loop range_product target_value
    circuit_limbs_loop-value limb midpoint zero low high v v' e e' = (refl, e, e')
    circuit_limbs_loop-value limb midpoint (suc left) low high v v' e e' =
        let base : ExtensionTarget = constant_extension (from_canonical 4) in
        let this_limb : ExtensionTarget = wire (limb left) in
        let rest =
          circuit_limbs_loop-value limb midpoint left _ _ _ _
            (if-value (ltb left midpoint) (mul_add_extension base low this_limb) low
              ∙ ap
                  (λ a.
                    if ltb left midpoint then add (mul (from_canonical 4) a) (w (limb left)) else a)
                  e)
            (if-value (ltb left midpoint) high (mul_add_extension base high this_limb)
              ∙ ap
                  (λ a.
                    if ltb left midpoint then a else add (mul (from_canonical 4) a) (w (limb left)))
                  e') in
        (
          ap₂ (λ x xs. x ∷ xs) (circuit_product_loop-value 4 0 (constant_extension one_f) this_limb)
              (rest.0),
          rest.1,
          rest.2,
        )

    -- The constraints on the limbs, and the two that compare them with the outputs `a` and `b`.
    pub circuit_limbs_loop-append :
        (limb : ℕ → ℕ) (midpoint left : ℕ) (a b : ExtensionTarget)
        → let zero_target = constant_extension zero_f in
          let out = circuit_limbs_loop limb midpoint left zero_target zero_target in
          let out' = limbs_loop f (λ j. w (limb j)) midpoint left zero_f zero_f in
          map (target_value w) (out.0 ++ (sub_extension out.1 a ∷ sub_extension out.2 b ∷ []))
          ≡ out'.0 ++ (sub out'.1 (target_value w a) ∷ sub out'.2 (target_value w b) ∷ [])
    unfolding target_value
    circuit_limbs_loop-append limb midpoint left a b =
        let zero_target : ExtensionTarget = constant_extension zero_f in
        let out = circuit_limbs_loop limb midpoint left zero_target zero_target in
        let (e₀, e₁, e₂) =
          circuit_limbs_loop-value limb midpoint left zero_target zero_target zero_f zero_f refl
            refl in
        map-append (target_value w) (out.0) (sub_extension out.1 a ∷ sub_extension out.2 b ∷ [])
        ∙ ap₂ (λ xs ys. xs ++ ys) e₀
            (ap₂ (λ x y. sub x (target_value w a) ∷ sub y (target_value w b) ∷ []) e₁ e₂)

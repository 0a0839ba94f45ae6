-- ===== src/Gates/ComparisonChunks.antt =====
-- What the constraints on the chunks of `ComparisonGate` say.
use native.Mathlib.Nat.{pow-zero, pow-succ', mul-le-mul_right}
use succinctx.Prelude.{
  ℕ, zero, suc, ◌+◌, ◌*◌, ◌^◌, ◌≤◌, ◌<◌, ◌≡◌, refl, sym, ap, ap₂, ◌∙◌, ◌≢◌, ◌⊎◌, inl, inr, List,
  ◌∷◌, arith, ltb, ◌==◌, ltb→lt, ltb_false→le, ==_iff, Bool-cases,
}
use succinctx.Gates.Field.{Field, IsDomain, order, AllZero, sub-eq-zero}
use succinctx.Gates.Limbs.{product_loop, product_loop-factor, one-ne-zero}
use succinctx.Gates.AddMany.{collect}
use succinctx.Gates.RangeCheck.{Reduce}
use succinctx.Gates.Comparison.{
  ComparisonGate, chunk_loop, wire_first_chunk_val, wire_second_chunk_val, wire_equality_dummy,
  wire_chunks_equal, wire_intermediate_value,
}

pub compare-cases : (m n : ℕ) → (m < n) ⊎ (n < m) ⊎ (m ≡ n)
compare-cases m n = elim (Bool-cases (ltb m n)) [
  | inl t ↦ inl (ltb→lt m n t)
  | inr t ↦
      let h = ltb_false→le m n t in
      elim (Bool-cases (m == n)) [
        | inl t' ↦ inr (inr ((==_iff m n).0 t'))
        | inr t' ↦ inr (inl (ground (arith, t', h)))
      ]
]

-- p' and q' compare as a and b do, and are p and q where a and b are equal.
abbrev pub Decides : ℕ → ℕ → ℕ → ℕ → ℕ → ℕ → Type 0
Decides p q a b p' q' = (a < b → p' < q') × (b < a → q' < p') × (a ≡ b → (p' ≡ p) × (q' ≡ q))

-- The higher digit decides first.
Decides-cons :
    (size p q a b p₁ q₁ m n p' q' : ℕ)
    → a < size
    → b < size
    → Decides p q a b p₁ q₁
    → Decides p₁ q₁ m n p' q'
    → Decides p q (m * size + a) (n * size + b) p' q'
Decides-cons size p q a b p₁ q₁ m n p' q' ha hb d e = elim (compare-cases m n) [
  | inl h ↦
      let gap : (m + 1) * size ≤ n * size = mul-le-mul_right size (omega arith) in
      (λ l. e.0 h, λ l. absurd (omega (arith, gap, ha, l)), λ l. absurd (omega (arith, gap, ha, l)))
  | inr (inl h) ↦
      let gap : (n + 1) * size ≤ m * size = mul-le-mul_right size (omega arith) in
      (λ l. absurd (omega (arith, gap, hb, l)), λ l. e.1 h, λ l. absurd (omega (arith, gap, hb, l)))
  | inr (inr h) ↦
      let (ep, eq) = e.2 h in
      let same : m * size ≡ n * size = ap (λ x. x * size) h in
      (
        λ l. let g = d.0 (omega (arith, same, l)) in omega (arith, g, ep, eq),
        λ l. let g = d.1 (omega (arith, same, l)) in omega (arith, g, ep, eq),
        λ l. let g = d.2 (omega (arith, same, l)) in (ep ∙ g.0, eq ∙ g.1),
      )
]

digit-lt : (size left m a : ℕ) → m < size ^ left → a < size → m * size + a < size ^ suc left
digit-lt size left m a hm ha =
    let p : size ^ suc left ≡ size * size ^ left = pow-succ' size left in
    let q : (m + 1) * size ≤ size ^ left * size = mul-le-mul_right size (omega arith) in
    omega (arith, p, q, ha)

module _ (f : Field) (d : IsDomain f) where
  open f use {F, zero_f, one_f, add, sub, mul, from_canonical}

  -- A wire that a product bounds holds a number.
  pub product_loop_sound :
      (size : ℕ) (limb : F)
      → product_loop f size 0 one_f limb ≡ zero_f
      → (k : ℕ) × (k < size) × (limb ≡ from_canonical k)
  product_loop_sound size limb e = elim (product_loop-factor f d size 0 one_f limb e) [
    | inl e' ↦ absurd (one-ne-zero f d e')
    | inr (k, h, e') ↦ (k, omega arith, e')
  ]

  sub_zero : (a : F) → sub a zero_f ≡ a
  sub_zero a =
      ap (λ b. sub b zero_f) (sym (f.zero_add a) ∙ f.add_comm zero_f a) ∙ f.add_sub a zero_f

  zero_mul : (a : F) → mul zero_f a ≡ zero_f
  zero_mul a = f.mul_comm zero_f a ∙ f.mul_zero a

  -- The step where the chunks are equal.
  keep :
      (difference dummy equal inter so_far : F)
      → difference ≡ zero_f
      → sub (mul difference dummy) (sub one_f equal) ≡ zero_f
      → sub inter (mul equal so_far) ≡ zero_f
      → add inter (mul (sub one_f equal) difference) ≡ so_far
  keep difference dummy equal inter so_far e h h' =
      let complement : sub one_f equal ≡ zero_f =
        sym ((sub-eq-zero f _ _).0 h) ∙ ap (λ a. mul a dummy) e ∙ zero_mul dummy in
      let one : equal ≡ one_f = sym ((sub-eq-zero f one_f equal).0 complement) in
      ap₂ (λ a b. add a b)
        ((sub-eq-zero f _ _).0 h' ∙ ap (λ a. mul a so_far) one ∙ f.one_mul so_far)
        (ap (λ a. mul a difference) complement ∙ zero_mul difference)
      ∙ f.add_comm so_far zero_f
      ∙ f.zero_add so_far

  -- The step where they are not.
  replace :
      (difference equal inter so_far : F)
      → difference ≢ zero_f
      → mul equal difference ≡ zero_f
      → sub inter (mul equal so_far) ≡ zero_f
      → add inter (mul (sub one_f equal) difference) ≡ difference
  replace difference equal inter so_far ne h h' = elim (d.factor equal difference h) [
    | inr e ↦ absurd (ne e)
    | inl e ↦
        ap₂ (λ a b. add a (mul (sub one_f b) difference))
          ((sub-eq-zero f _ _).0 h' ∙ ap (λ a. mul a so_far) e ∙ zero_mul so_far) e
        ∙ f.zero_add _
        ∙ ap (λ a. mul a difference) (sub_zero one_f)
        ∙ f.one_mul difference
  ]

  step_sound :
      (size a b p q : ℕ) (difference dummy equal inter so_far : F)
      → size ≤ order
      → a < size
      → b < size
      → p < size
      → q < size
      → so_far ≡ sub (from_canonical q) (from_canonical p)
      → difference ≡ sub (from_canonical b) (from_canonical a)
      → sub (mul difference dummy) (sub one_f equal) ≡ zero_f
      → mul equal difference ≡ zero_f
      → sub inter (mul equal so_far) ≡ zero_f
      → (p' : ℕ) × (q' : ℕ) × Decides p q a b p' q'
        × (add inter (mul (sub one_f equal) difference)
            ≡ sub (from_canonical q') (from_canonical p'))
        × (p' < size)
        × (q' < size)
  step_sound size a b p q difference dummy equal inter so_far hs ha hb hp hq e ed h h' h'' =
      elim (Bool-cases (a == b)) [
        | inl t ↦
            let same : a ≡ b = (==_iff a b).0 t in
            (
              p,
              q,
              (λ l. absurd (omega arith), λ l. absurd (omega arith), λ l. (refl, refl)),
              keep difference dummy equal inter so_far
                    (ed ∙ (sub-eq-zero f _ _).1 (ap from_canonical (sym same))) h h''
                  ∙ e,
              hp,
              hq,
            )
        | inr t ↦
            let other : a ≢ b = ground (arith, t) in
            (
              a,
              b,
              (λ l. l, λ l. l, λ l. absurd (other l)),
              replace difference equal inter so_far
                    (λ z. other (
                      d.injective a b (omega (arith, ha, hs)) (omega (arith, hb, hs))
                        (sym ((sub-eq-zero f _ _).0 (sym ed ∙ z)))))
                    h' h''
                  ∙ ed,
              ha,
              hb,
            )
      ]

  module _ (r : Reduce f) where
    pub reduce-digit :
        (size m a : ℕ) (x : F) (xs : List F)
        → x ≡ from_canonical a
        → r.reduce_with_powers xs (from_canonical size) ≡ from_canonical m
        → r.reduce_with_powers (x ∷ xs) (from_canonical size) ≡ from_canonical (m * size + a)
    reduce-digit size m a x xs ea em =
        r.reduce-cons x xs (from_canonical size)
        ∙ ap₂ (λ y z. add (mul y (from_canonical size)) z) em ea
        ∙ ap (λ y. add y (from_canonical a)) (sym (f.from_mul m size))
        ∙ sym (f.from_add (m * size) a)

  module _ (r : Reduce f) (gate : ComparisonGate) (w : ℕ → F) where
    -- The chunks are the digits of two numbers, and the last difference is of two digits that compare
    -- as the numbers do.
    pub chunk_loop_sound :
        (size left i p q : ℕ) (so_far : F)
        → size ≤ order
        → p < size
        → q < size
        → so_far ≡ sub (from_canonical q) (from_canonical p)
        → AllZero f (chunk_loop f gate w size left i so_far).0
        → (m : ℕ) × (n : ℕ) × (p' : ℕ) × (q' : ℕ) × (m < size ^ left)
          × (n < size ^ left)
          × (r.reduce_with_powers
                (collect (λ k. w (wire_first_chunk_val gate k)) left i)
                (from_canonical size)
              ≡ from_canonical m)
          × (r.reduce_with_powers
                (collect (λ k. w (wire_second_chunk_val gate k)) left i)
                (from_canonical size)
              ≡ from_canonical n)
          × Decides p q m n p' q'
          × ((chunk_loop f gate w size left i so_far).1
              ≡ sub (from_canonical q') (from_canonical p'))
          × (p' < size)
          × (q' < size)
    unfolding chunk_loop collect
    chunk_loop_sound size zero i p q so_far hs hp hq e z =
        let one : size ^ 0 ≡ 1 = pow-zero size in
        (
          0,
          0,
          p,
          q,
          omega (arith, one),
          omega (arith, one),
          r.reduce-nil _ ∙ sym f.from_zero,
          r.reduce-nil _ ∙ sym f.from_zero,
          (λ l. absurd (omega arith), λ l. absurd (omega arith), λ l. (refl, refl)),
          e,
          hp,
          hq,
        )
    chunk_loop_sound size (suc left) i p q so_far hs hp hq e z =
        let (a, ha, ea) = product_loop_sound size (w (wire_first_chunk_val gate i)) z.0 in
        let (b, hb, eb) = product_loop_sound size (w (wire_second_chunk_val gate i)) z.1.0 in
        let difference = sub (w (wire_second_chunk_val gate i)) (w (wire_first_chunk_val gate i)) in
        let equal = w (wire_chunks_equal gate i) in
        let inter = w (wire_intermediate_value gate i) in
        let (p₁, q₁, here, e₁, hp₁, hq₁) =
          step_sound size a b p q difference (w (wire_equality_dummy gate i)) equal inter so_far hs
            ha hb hp hq e (ap₂ (λ x y. sub x y) eb ea) z.1.1.0 z.1.1.1.0 z.1.1.1.1.0 in
        let (m, n, p', q', hm, hn, em, en, rest, e', hp', hq') =
          chunk_loop_sound size left (i + 1) p₁ q₁ (add inter (mul (sub one_f equal) difference)) hs
            hp₁ hq₁ e₁ z.1.1.1.1.1 in
        (
          m * size + a,
          n * size + b,
          p',
          q',
          digit-lt size left m a hm ha,
          digit-lt size left n b hn hb,
          reduce-digit r size m a (w (wire_first_chunk_val gate i)) _ ea em,
          reduce-digit r size n b (w (wire_second_chunk_val gate i)) _ eb en,
          Decides-cons size p q a b p₁ q₁ m n p' q' ha hb here rest,
          e',
          hp',
          hq',
        )

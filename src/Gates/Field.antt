-- ===== src/Gates/Field.antt =====
-- The field of plonky2 that the gates are evaluated over: its operations, and the laws that the
-- gates rely on.
use mathlib.Core.Path.{subst}
use mathlib.Core.List.{map-append}
use succinctx.Prelude.{
  ℕ, zero, suc, ◌+◌, ◌-◌, ◌*◌, ◌≤◌, ◌<◌, ◌≡◌, refl, sym, ap, ◌∙◌, ◌↔◌, ◌⊎◌, inl, inr, List, [], ◌∷◌,
  ◌++◌, map, arith, ◌==◌, ==_iff, Bool-cases,
}

-- The operations with the laws of a commutative ring, and the numbers in it; `from_canonical_u64`, `from_canonical_u32` and
-- `from_canonical_usize` are `from_canonical`.
pub record Field : Type 1 where
  pub F : Type 0
  pub zero_f : F
  pub one_f : F
  pub add : F → F → F
  pub sub : F → F → F
  pub mul : F → F → F
  pub neg : F → F
  pub from_canonical : ℕ → F
  pub add_comm : (a b : F) → add a b ≡ add b a
  pub add_assoc : (a b c : F) → add (add a b) c ≡ add a (add b c)
  pub zero_add : (a : F) → add zero_f a ≡ a
  pub sub_add : (a b : F) → add (sub a b) b ≡ a
  pub add_sub : (a b : F) → sub (add a b) b ≡ a
  pub add_neg : (a b : F) → add a (neg b) ≡ sub a b
  pub mul_add : (a b c : F) → mul a (add b c) ≡ add (mul a b) (mul a c)
  pub mul_comm : (a b : F) → mul a b ≡ mul b a
  pub mul_zero : (a : F) → mul a zero_f ≡ zero_f
  pub one_mul : (a : F) → mul one_f a ≡ a
  pub from_zero : from_canonical 0 ≡ zero_f
  pub from_one : from_canonical 1 ≡ one_f
  pub from_add : (m n : ℕ) → from_canonical (m + n) ≡ add (from_canonical m) (from_canonical n)
  pub from_mul : (m n : ℕ) → from_canonical (m * n) ≡ mul (from_canonical m) (from_canonical n)

-- 2 ^ 64 - 2 ^ 32 + 1, the order of the field.
abbrev pub order : ℕ
order = 18446744069414584321

-- A product is zero only if a factor is, and the numbers below the order are different.
pub record IsDomain (f : Field) : Type 0 where
  pub factor : (a b : f.F) → f.mul a b ≡ f.zero_f → (a ≡ f.zero_f) ⊎ (b ≡ f.zero_f)
  pub injective :
      (m n : ℕ) → m < order → n < order → f.from_canonical m ≡ f.from_canonical n → m ≡ n

-- What the operations from number `i` on give, `left` of them, one after another.
module _ {ℓ} {A : Type ℓ} where
  unfoldable pub for_ops : ℕ → ℕ → (ℕ → List A) → List A
  for_ops zero i op = []
  for_ops (suc left) i op = op i ++ for_ops left (i + 1) op

pub map-for_ops {ℓ κ} :
    {A : Type ℓ} {B : Type κ} (g : A → B) (left i : ℕ) (op : ℕ → List A)
    → map g (for_ops left i op) ≡ for_ops left i (λ k. map g (op k))
unfolding for_ops
map-for_ops g zero i op = refl
map-for_ops g (suc left) i op =
    map-append g (op i) (for_ops left (i + 1) op)
    ∙ ap (λ r. map g (op i) ++ r) (map-for_ops g left (i + 1) op)

-- Every element has the property.
abbrev pub All {ℓ κ} : {A : Type ℓ} → (A → Type κ) → List A → Type κ
All P [] = Unit
All P (x ∷ xs) = P x × All P xs

module _ {ℓ κ} {A : Type ℓ} (P : A → Type κ) where
  pub All-append : (xs ys : List A) → All P (xs ++ ys) ↔ (All P xs × All P ys)
  All-append [] ys = (λ z. (tt, z), λ p. p.1)
  All-append (x ∷ xs) ys =
      let rest = All-append xs ys in
      (λ z. ((z.0, (rest.0 z.1).0), (rest.0 z.1).1), λ p. (p.0.0, rest.1 (p.0.1, p.1)))

  pub for_ops-All :
      (left i : ℕ) (op : ℕ → List A)
      → All P (for_ops left i op)
      → (k : ℕ) → i ≤ k
      → k < i + left
      → All P (op k)
  unfolding for_ops
  for_ops-All zero i op z k h h' = absurd (omega arith)
  for_ops-All (suc left) i op z k h h' =
      let (here, rest) = (All-append (op i) (for_ops left (i + 1) op)).0 z in
      elim (Bool-cases (i == k)) [
        | inl e ↦ subst (λ n. All P (op n)) ((==_iff i k).0 e) here
        | inr e ↦ for_ops-All left (i + 1) op rest k (ground (arith, e)) (omega arith)
      ]

  pub All-for_ops :
      (left i : ℕ) (op : ℕ → List A)
      → ((k : ℕ) → i ≤ k → k < i + left → All P (op k))
      → All P (for_ops left i op)
  unfolding for_ops
  All-for_ops zero i op z = tt
  All-for_ops (suc left) i op z = (All-append (op i) (for_ops left (i + 1) op)).1 (
    z i (omega arith) (omega arith),
    All-for_ops left (i + 1) op (λ k h h'. z k (omega arith) (omega arith)),
  )

module _ (f : Field) where
  open f use {F, zero_f, add, sub, mul, from_canonical}

  -- Every constraint is met.
  abbrev pub AllZero : List F → Type 0
  AllZero xs = All (λ x. x ≡ zero_f) xs

  pub AllZero-append : (xs ys : List F) → AllZero (xs ++ ys) ↔ (AllZero xs × AllZero ys)
  AllZero-append xs ys = All-append (λ x. x ≡ zero_f) xs ys

  pub for_ops-AllZero :
      (left i : ℕ) (op : ℕ → List F)
      → AllZero (for_ops left i op)
      → (k : ℕ) → i ≤ k
      → k < i + left
      → AllZero (op k)
  for_ops-AllZero left i op = for_ops-All (λ x. x ≡ zero_f) left i op

  pub AllZero-for_ops :
      (left i : ℕ) (op : ℕ → List F)
      → ((k : ℕ) → i ≤ k → k < i + left → AllZero (op k))
      → AllZero (for_ops left i op)
  AllZero-for_ops left i op = All-for_ops (λ x. x ≡ zero_f) left i op

  pub add_right_comm : (a b c : F) → add (add a b) c ≡ add (add a c) b
  add_right_comm a b c =
      f.add_assoc a b c ∙ ap (λ x. add a x) (f.add_comm b c) ∙ sym (f.add_assoc a c b)

  pub sub-eq-zero : (a b : F) → (sub a b ≡ zero_f) ↔ (a ≡ b)
  sub-eq-zero a b = (
    λ e. sym (f.sub_add a b) ∙ ap (λ c. add c b) e ∙ f.zero_add b,
    λ e. ap (λ c. sub c b) (e ∙ sym (f.zero_add b)) ∙ f.add_sub zero_f b,
  )

  -- Subtraction of numbers, where the difference is not negative.
  pub from-sub :
      (m n : ℕ) → n ≤ m → sub (from_canonical m) (from_canonical n) ≡ from_canonical (m - n)
  from-sub m n h =
      let e : m ≡ (m - n) + n = omega arith in
      ap (λ k. sub (from_canonical k) (from_canonical n)) e
      ∙ ap (λ a. sub a (from_canonical n)) (f.from_add (m - n) n)
      ∙ f.add_sub (from_canonical (m - n)) (from_canonical n)

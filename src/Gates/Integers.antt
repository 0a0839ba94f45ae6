-- ===== src/Gates/Integers.antt =====
-- The integers meet the laws that the gates rely on. The tests evaluate the gates over them.
use succinctx.Prelude.{
  ℕ, zero, suc, ◌+◌, ◌-◌, ◌*◌, ◌≤◌, ◌<◌, ◌≡◌, refl, sym, ap, ◌∙◌, ◌⊎◌, inl, inr, arith, leb,
  if◌then◌else◌, leb→le, le→leb, lt→leb_false, Bool-cases,
}
use succinctx.Gates.Field.{Field, IsDomain}

pub data ℤ : Type 0 where
  pos : ℕ → ℤ
  negsuc : ℕ → ℤ

-- p - n.
abbrev pub diff : ℕ → ℕ → ℤ
diff p n = if leb n p then pos (p - n) else negsuc (n - p - 1)

abbrev up : ℤ → ℕ
up (pos n) = n
up (negsuc n) = 0

abbrev down : ℤ → ℕ
down (pos n) = 0
down (negsuc n) = n + 1

abbrev add : ℤ → ℤ → ℤ
add a b = diff (up a + up b) (down a + down b)

abbrev sub : ℤ → ℤ → ℤ
sub a b = diff (up a + down b) (down a + up b)

abbrev mul : ℤ → ℤ → ℤ
mul a b = diff (up a * up b + down a * down b) (up a * down b + down a * up b)

diff-le : (p n : ℕ) → n ≤ p → diff p n ≡ pos (p - n)
diff-le p n h = rw (le→leb n p h)

pub diff-lt : (p n : ℕ) → p < n → diff p n ≡ negsuc (n - p - 1)
diff-lt p n h = rw (lt→leb_false n p h)

-- Different ways to write the same difference.
diff_unique : (p n q m : ℕ) → p + m ≡ q + n → diff p n ≡ diff q m
diff_unique p n q m e = elim (Bool-cases (leb n p)) [
  | inl t ↦
      let h = leb→le n p t in
      diff-le p n h ∙ ap pos (omega (arith, e, h)) ∙ sym (diff-le q m (omega (arith, e, h)))
  | inr t ↦
      let h : p < n = ground (arith, t) in
      diff-lt p n h ∙ ap negsuc (omega (arith, e, h)) ∙ sym (diff-lt q m (omega (arith, e, h)))
]

diff-up-down : (a : ℤ) → diff (up a) (down a) ≡ a
diff-up-down (pos n) = diff-le n 0 (omega arith) ∙ ap pos (omega arith)
diff-up-down (negsuc n) = diff-lt 0 (n + 1) (omega arith) ∙ ap negsuc (omega arith)

up-down-diff : (p n : ℕ) → up (diff p n) + n ≡ p + down (diff p n)
up-down-diff p n = elim (Bool-cases (leb n p)) [
  | inl t ↦ let h = leb→le n p t in rw t (omega (arith, h))
  | inr t ↦ let h : p < n = ground (arith, t) in rw t (omega (arith, h))
]

pub add_comm : (a b : ℤ) → add a b ≡ add b a
add_comm a b = diff_unique _ _ _ _ (omega arith)

pub add_assoc : (a b c : ℤ) → add (add a b) c ≡ add a (add b c)
add_assoc a b c =
    let l = up-down-diff (up a + up b) (down a + down b) in
    let r = up-down-diff (up b + up c) (down b + down c) in
    diff_unique _ _ _ _ (omega (arith, l, r))

pub zero_add : (a : ℤ) → add (pos 0) a ≡ a
zero_add a = diff_unique _ _ _ _ (omega arith) ∙ diff-up-down a

pub sub_add : (a b : ℤ) → add (sub a b) b ≡ a
sub_add a b =
    let h = up-down-diff (up a + down b) (down a + up b) in
    diff_unique _ _ _ _ (omega (arith, h)) ∙ diff-up-down a

pub add_sub : (a b : ℤ) → sub (add a b) b ≡ a
add_sub a b =
    let h = up-down-diff (up a + up b) (down a + down b) in
    diff_unique _ _ _ _ (omega (arith, h)) ∙ diff-up-down a

abbrev neg : ℤ → ℤ
neg a = diff (down a) (up a)

pub add_neg : (a b : ℤ) → add a (neg b) ≡ sub a b
add_neg a b = let h = up-down-diff (down b) (up b) in diff_unique _ _ _ _ (omega (arith, h))

pub mul_comm : (a b : ℤ) → mul a b ≡ mul b a
mul_comm a b = diff_unique _ _ _ _ (omega arith)

pub mul_zero : (a : ℤ) → mul a (pos 0) ≡ pos 0
mul_zero a = diff_unique _ _ 0 0 (omega arith)

pub one_mul : (a : ℤ) → mul (pos 1) a ≡ a
one_mul a = diff_unique _ _ _ _ (omega arith) ∙ diff-up-down a

pub mul_add : (a b c : ℤ) → mul a (add b c) ≡ add (mul a b) (mul a c)
mul_add a b c =
    let s = add b c in
    let h = up-down-diff (up b + up c) (down b + down c) in
    let l = up-down-diff (up a * up b + down a * down b) (up a * down b + down a * up b) in
    let r = up-down-diff (up a * up c + down a * down c) (up a * down c + down a * up c) in
    let p : up a * (up s + (down b + down c)) ≡ up a * (up b + up c + down s) =
      ap (λ x. up a * x) h in
    let q : down a * (up s + (down b + down c)) ≡ down a * (up b + up c + down s) =
      ap (λ x. down a * x) h in
    diff_unique _ _ _ _ (omega (arith, l, r, p, q))

diff-zero : (p n : ℕ) → diff p n ≡ pos 0 → p ≡ n
diff-zero p n e =
    let h = up-down-diff p n in
    let u : up (diff p n) ≡ 0 = ap up e in
    let d : down (diff p n) ≡ 0 = ap down e in omega (arith, h, u, d)

factor : (a b : ℤ) → mul a b ≡ pos 0 → (a ≡ pos 0) ⊎ (b ≡ pos 0)
factor (pos zero) b e = inl refl
factor (pos (suc m)) (pos zero) e = inr refl
factor (pos (suc m)) (pos (suc n)) e = let h = diff-zero _ _ e in absurd (omega (arith, h))
factor (pos (suc m)) (negsuc n) e = let h = diff-zero _ _ e in absurd (omega (arith, h))
factor (negsuc m) (pos zero) e = inr refl
factor (negsuc m) (pos (suc n)) e = let h = diff-zero _ _ e in absurd (omega (arith, h))
factor (negsuc m) (negsuc n) e = let h = diff-zero _ _ e in absurd (omega (arith, h))

pub from_add : (m n : ℕ) → pos (m + n) ≡ add (pos m) (pos n)
from_add m n = sym (diff-le (m + n) 0 (omega arith) ∙ ap pos (omega arith))

pub from_mul : (m n : ℕ) → pos (m * n) ≡ mul (pos m) (pos n)
from_mul m n = sym (
    diff_unique _ _ (m * n) 0 (omega arith)
    ∙ diff-le (m * n) 0 (omega arith)
    ∙ ap pos (omega arith))

abbrev pub integers : Field
integers = record {
  F = ℤ;
  zero_f = pos 0;
  one_f = pos 1;
  add = add;
  sub = sub;
  mul = mul;
  neg = neg;
  from_canonical = pos;
  add_comm = add_comm;
  add_assoc = add_assoc;
  zero_add = zero_add;
  sub_add = sub_add;
  add_sub = add_sub;
  add_neg = add_neg;
  mul_add = mul_add;
  mul_comm = mul_comm;
  mul_zero = mul_zero;
  one_mul = one_mul;
  from_zero = refl;
  from_one = refl;
  from_add = from_add;
  from_mul = from_mul;
}

pub integers-IsDomain : IsDomain integers
integers-IsDomain = record { factor = factor; injective = λ m n h h' e. ap up e }

-- ===== src/Uint/Sub.antt =====
-- `sub_biguint` computes the difference, and wraps around when the first operand is the smaller one.
use Prim.Native.Nat.{max}
use native.Mathlib.Nat.{mod-eq_of_lt, add-mod_right}
use succinctx.Prelude.{
  ℕ, zero, suc, ◌+◌, ◌-◌, ◌*◌, ◌%◌, ◌^◌, ◌≤◌, ◌<◌, ◌≡◌, refl, sym, ap, ◌∙◌, List, [], ◌∷◌, arith,
  length, ok,
}
use succinctx.Uint.Gadgets.{sub_u32}
use succinctx.Uint.BigUint.{sub_loop, sub_biguint, pad_biguints}
use succinctx.Uint.Value.{value, AreLimbs, value-bound, scale_suc, pad_biguints-value}

sub_u32_lem :
    (x y borrow : ℕ)
    → x < 2 ^ 32
    → y < 2 ^ 32
    → borrow ≤ 1
    → ((sub_u32 x y borrow).0 < 2 ^ 32)
      × ((sub_u32 x y borrow).1 ≤ 1)
      × ((sub_u32 x y borrow).0 + y + borrow ≡ x + (sub_u32 x y borrow).1 * 2 ^ 32)
unfolding sub_u32
sub_u32_lem x y borrow hx hy hb = ground arith

limb_step :
    (t n r b c a d x y borrow : ℕ)
    → r + b + c ≡ a + t * (2 ^ 32) ^ n
    → d + y + borrow ≡ x + c * 2 ^ 32
    → d + 2 ^ 32 * r + (y + 2 ^ 32 * b) + borrow ≡ x + 2 ^ 32 * a + t * (2 ^ 32) ^ suc n
limb_step t n r b c a d x y borrow h h' = omega (arith, scale_suc t n)

sub_loop-value :
    (borrow : ℕ) (a b : List ℕ)
    → borrow ≤ 1
    → AreLimbs a
    → AreLimbs b
    → length a ≡ length b
    → (r : List ℕ) × (t : ℕ) × (sub_loop borrow a b ≡ ok r)
      × AreLimbs r
      × (length r ≡ length a)
      × (t ≤ 1)
      × (value r + value b + borrow ≡ value a + t * (2 ^ 32) ^ length a)
unfolding sub_loop value
sub_loop-value borrow [] [] h la lb e = ([], borrow, refl, tt, refl, h, omega arith)
sub_loop-value borrow [] (y ∷ ys) h la lb e = absurd (omega arith)
sub_loop-value borrow (x ∷ xs) [] h la lb e = absurd (omega arith)
sub_loop-value borrow (x ∷ xs) (y ∷ ys) h la lb e =
    let (hd, hb, hv) = sub_u32_lem x y borrow la.0 lb.0 h in
    let (r, t, e', lr, len, ht, v) =
      sub_loop-value (sub_u32 x y borrow).1 xs ys hb la.1 lb.1 (omega arith) in
    (
      (sub_u32 x y borrow).0 ∷ r,
      t,
      rw e',
      (hd, lr),
      omega (arith, len),
      ht,
      limb_step t (length xs) _ _ _ _ _ x y borrow v hv,
    )

sub_mod : (r a b m t : ℕ) → r < m → a < m → t ≤ 1 → r + b ≡ a + t * m → r ≡ (a + m - b) % m
sub_mod r a b m zero hr ha ht h =
    let e : a + m - b ≡ r + m = omega arith in rw e (sym (add-mod_right r m ∙ mod-eq_of_lt hr))
sub_mod r a b m (suc zero) hr ha ht h =
    let e : a + m - b ≡ r = omega arith in rw e (sym (mod-eq_of_lt hr))
sub_mod r a b m (suc (suc t)) hr ha ht h = absurd (omega arith)

-- For limbs below 2 ^ 32, sub_biguint returns as many limbs as the longer operand has, below 2 ^
-- 32, whose value is the difference of the values modulo 2 ^ 32 to the power of that number of
-- limbs.
pub sub_biguint-value :
    (a b : List ℕ)
    → AreLimbs a
    → AreLimbs b
    → (r : List ℕ) × (sub_biguint a b ≡ ok r)
      × AreLimbs r
      × (length r ≡ max (length a) (length b))
      × (value r
          ≡ (value a + (2 ^ 32) ^ max (length a) (length b) - value b)
            % (2 ^ 32) ^ max (length a) (length b))
unfolding sub_biguint
sub_biguint-value a b la lb =
    let (pa, pb, va, vb, ha, hb) = pad_biguints-value a b la lb in
    let (r, t, e, lr, len, ht, v) =
      sub_loop-value 0 (pad_biguints a b).0 (pad_biguints a b).1 (omega arith) pa pb
        (omega arith) in
    (
      r,
      e,
      lr,
      omega arith,
      sub_mod (value r) (value a) (value b) ((2 ^ 32) ^ max (length a) (length b)) t
          (rw (len ∙ ha) at (value-bound r lr))
          (rw (va, ha) at (value-bound (pad_biguints a b).0 pa)) ht
          (omega (arith, v, va, vb, ap (λ n. t * (2 ^ 32) ^ n) ha)),
    )

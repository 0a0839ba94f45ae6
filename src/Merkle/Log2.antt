-- ===== src/Merkle/Log2.antt =====
-- plonky2x/core/src/frontend/merkle/utils.rs: the ceiling of the logarithm of a `usize`, which is
-- below 2 ^ 64: 65 rounds of the loop are enough.
use native.Mathlib.Nat.{pow-suc, pow-le-pow_right}
use Prim.Native.Nat.{max}
use native.Mathlib.Decide.{dec_le}
use succinctx.Prelude.{
  ℕ, zero, suc, ◌+◌, ◌-◌, ◌*◌, ◌/◌, ◌^◌, ◌≤◌, ◌<◌, ◌≡◌, refl, ap, ◌∙◌, inl, inr, arith, ltb, leb,
  if◌then◌else◌, Bool-cases, Outcome, ok, stuck,
}

-- `while value > 0 { value >>= 1; result += 1; }`.
unfoldable pub log2_loop : ℕ → ℕ → ℕ → Outcome ℕ
log2_loop zero value result = stuck
log2_loop (suc fuel) value result =
    let rest = log2_loop fuel (value / 2) (result + 1) in if ltb 0 value then rest else ok result

unfoldable pub log2_ceil_usize : ℕ → Outcome ℕ
log2_ceil_usize x = if leb x 1 then ok 0 else log2_loop 65 (x - 1) 0

log2_loop_done : (fuel result : ℕ) → log2_loop (suc fuel) 0 result ≡ ok result
unfolding log2_loop
log2_loop_done fuel result = refl

log2_loop_step :
    (fuel n result : ℕ)
    → log2_loop (suc fuel) (suc n) result ≡ log2_loop fuel (suc n / 2) (result + 1)
unfolding log2_loop
log2_loop_step fuel n result = ground arith

-- From `value` the loop adds the number of its binary digits.
log2_loop-digits :
    (fuel value result : ℕ)
    → value < 2 ^ fuel
    → (k : ℕ) × (log2_loop (suc fuel) value result ≡ ok (result + k))
      × (value < 2 ^ k)
      × (2 ^ k ≤ max 1 (2 * value))
      × (k ≤ fuel)
log2_loop-digits fuel zero result h =
    (0, log2_loop_done fuel result ∙ ap ok (omega arith), omega arith, omega arith, omega arith)
log2_loop-digits zero (suc n) result h = absurd (omega arith)
log2_loop-digits (suc fuel) (suc n) result h =
    let (k, e, hi, lo, small) =
      log2_loop-digits fuel (suc n / 2) (result + 1) (omega (arith, pow-suc 2 fuel)) in
    (
      suc k,
      log2_loop_step (suc fuel) n result ∙ e ∙ ap ok (omega arith),
      omega (arith, pow-suc 2 k),
      omega (arith, pow-suc 2 k),
      omega arith,
    )

smallest : (k j x : ℕ) → 2 ^ k ≤ max 1 (2 * (x - 1)) → x ≤ 2 ^ j → 1 < x → k ≤ j
smallest k j x lo fits big = elim (dec_le k j) [
  | yes p ↦ p
  | no p ↦
      let le : 2 ^ suc j ≤ 2 ^ k = pow-le-pow_right (omega arith) (omega arith) in
      absurd (omega (arith, pow-suc 2 j))
]

-- On every `usize` the loop ends, with the smallest exponent whose power of two is at least `x`.
pub log2_ceil_usize_lem :
    (x : ℕ)
    → x < 2 ^ 64
    → (k : ℕ) × (log2_ceil_usize x ≡ ok k) × (k ≤ 64) × (x ≤ 2 ^ k) × ((j : ℕ) → x ≤ 2 ^ j → k ≤ j)
unfolding log2_ceil_usize
log2_ceil_usize_lem x h = elim (Bool-cases (leb x 1)) [
  | inl small ↦ (0, rw small, omega arith, ground arith, λ j fits. omega arith)
  | inr large ↦
      let (k, e, hi, lo, bound) = log2_loop-digits 64 (x - 1) 0 (omega arith) in
      let big : 1 < x = ground arith in
      (
        k,
        rw (large, e) (ap ok (omega arith)),
        bound,
        omega arith,
        λ j fits. smallest k j x lo fits big,
      )
]

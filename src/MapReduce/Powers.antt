-- ===== src/MapReduce/Powers.antt =====
-- The powers of two of MapReduce/Commitment.antt, and the chunks of the inputs.
use native.Mathlib.Nat.{two-pow-succ, one-le-pow}
use succinctx.Prelude.{
  ◌*◌, ℕ, zero, suc, ◌+◌, ◌/◌, ◌%◌, ◌^◌, ◌≤◌, ◌≡◌, refl, ap, inl, inr, true, false, List, arith,
  leb, ◌==◌, Bool-cases, length,
}
use succinctx.MapReduce.Commitment.{
  power_of_two_loop, is_power_of_two, log2_ceil_loop, log2_ceil, chunk_loop,
}

power_of_two_loop-eq :
    (fuel n : ℕ) → power_of_two_loop fuel n ≡ true → (d : ℕ) × (d ≤ fuel) × (n ≡ 2 ^ d)
unfolding power_of_two_loop
power_of_two_loop-eq zero n e = (0, omega arith, ground arith)
power_of_two_loop-eq (suc fuel) n e = elim (Bool-cases (n == 1)) [
  | inl one ↦ (0, omega arith, ground arith)
  | inr more ↦ elim (Bool-cases (n % 2 == 0)) [
    | inr odd ↦ absurd (cc (rw (more, odd) at e))
    | inl even ↦
        let (d, h, p) = power_of_two_loop-eq fuel (n / 2) (rw (more, even) at e) in
        let even' : n % 2 ≡ 0 = ground arith in (suc d, omega arith, omega (arith, two-pow-succ d))
  ]
]

pub is_power_of_two-eq : (n : ℕ) → is_power_of_two n ≡ true → (d : ℕ) × (d ≤ 64) × (n ≡ 2 ^ d)
unfolding is_power_of_two
is_power_of_two-eq n e = power_of_two_loop-eq 64 n e

log2_ceil_loop-pow : (fuel d : ℕ) → d ≤ fuel → log2_ceil_loop fuel (2 ^ d) ≡ d
unfolding log2_ceil_loop
log2_ceil_loop-pow zero zero h = refl
log2_ceil_loop-pow zero (suc d) h = absurd (omega arith)
log2_ceil_loop-pow (suc fuel) zero h = refl
log2_ceil_loop-pow (suc fuel) (suc d) h =
    let double = two-pow-succ d in
    let positive : 1 ≤ 2 ^ d = one-le-pow d 2 (omega arith) in
    let more : leb (2 ^ suc d) 1 ≡ false = ground arith in
    let half : (2 ^ suc d + 1) / 2 ≡ 2 ^ d = omega arith in
    rw (more, half) (ap suc (log2_ceil_loop-pow fuel d (omega arith)))

pub log2_ceil-pow : (d : ℕ) → d ≤ 64 → log2_ceil (2 ^ d) ≡ d
unfolding log2_ceil
log2_ceil-pow d h = log2_ceil_loop-pow 64 d h

pub length-chunk_loop :
    {A : Type 0} (b left i : ℕ) (inputs : List A) → length (chunk_loop b left i inputs) ≡ left
unfolding chunk_loop
length-chunk_loop b zero i inputs = refl
length-chunk_loop b (suc left) i inputs = ap suc (length-chunk_loop b left (i + 1) inputs)

power_of_two_loop-pow : (fuel d : ℕ) → d ≤ fuel → power_of_two_loop fuel (2 ^ d) ≡ true
unfolding power_of_two_loop
power_of_two_loop-pow zero zero h = refl
power_of_two_loop-pow zero (suc d) h = absurd (omega arith)
power_of_two_loop-pow (suc fuel) zero h = refl
power_of_two_loop-pow (suc fuel) (suc d) h =
    let double = two-pow-succ d in
    let positive : 1 ≤ 2 ^ d = one-le-pow d 2 (omega arith) in
    let more : (2 ^ suc d == 1) ≡ false = ground arith in
    let even : (2 ^ suc d % 2 == 0) ≡ true = ground arith in
    let half : 2 ^ suc d / 2 ≡ 2 ^ d = omega arith in
    rw (more, even, half) (power_of_two_loop-pow fuel d (omega arith))

pub is_power_of_two-pow : (d : ℕ) → d ≤ 64 → is_power_of_two (2 ^ d) ≡ true
unfolding is_power_of_two
is_power_of_two-pow d h = power_of_two_loop-pow 64 d h

pub two-pow-add : (a b : ℕ) → 2 ^ (a + b) ≡ 2 ^ a * 2 ^ b
two-pow-add zero b = ground arith
two-pow-add (suc a) b =
    let e : suc a + b ≡ suc (a + b) = omega arith in
    rw (e, two-pow-succ (a + b), two-pow-succ a, two-pow-add a b) (omega arith)

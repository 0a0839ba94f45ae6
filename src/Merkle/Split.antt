-- ===== src/Merkle/Split.antt =====
-- The tree of the CometBFT specification (core/encoding, Merkle trees), which tendermint.rs names:
-- a list of more than one leaf is split at the largest power of two below its length. No code of
-- the repository; here it is related to a tree that is built layer by layer.
use native.Mathlib.Nat.{two-pow-succ, one-le-pow, pow-le-pow_right, le_trans}
use native.Mathlib.Decide.{dec_le}
use succinctx.Prelude.{
  ℕ, zero, suc, ◌+◌, ◌*◌, ◌^◌, ◌≤◌, ◌<◌, ◌≡◌, refl, sym, ap, ap₂, ◌∙◌, List, [], ◌∷◌, arith, leb,
  if◌then◌else◌, le→leb, lt→leb_false, length, take, drop, length-take, length-drop,
}

-- 2 * k in a form that computes.
unfoldable pub double : ℕ → ℕ
double zero = 0
double (suc k) = suc (suc (double k))

pub double-add : (k : ℕ) → double k ≡ k + k
unfolding double
double-add zero = omega arith
double-add (suc k) = omega (arith, double-add k)

pub two-pow-double : (d : ℕ) → 2 ^ suc d ≡ double (2 ^ d)
two-pow-double d = two-pow-succ d ∙ sym (double-add (2 ^ d))

-- n / 2, rounded up.
unfoldable pub half_up : ℕ → ℕ
half_up zero = 0
half_up (suc zero) = 1
half_up (suc (suc n)) = suc (half_up n)

pub half_up-double : (k : ℕ) → half_up (double k) ≡ k
unfolding half_up double
half_up-double zero = refl
half_up-double (suc k) = ap suc (half_up-double k)

pub half_up-bounds : (n : ℕ) → (n ≤ 2 * half_up n) × (2 * half_up n ≤ n + 1)
unfolding half_up
half_up-bounds zero = omega arith
half_up-bounds (suc zero) = omega arith
half_up-bounds (suc (suc n)) = omega (arith, half_up-bounds n)

module _ {ℓ} {A : Type ℓ} (inner : A → A → A) where
  -- One layer: neighbours are joined, and a last odd one is passed up.
  unfoldable pub pair_up : List A → List A
  pair_up [] = []
  pair_up (x ∷ []) = x ∷ []
  pair_up (x ∷ y ∷ xs) = inner x y ∷ pair_up xs

  pub length-pair_up : (xs : List A) → length (pair_up xs) ≡ half_up (length xs)
  unfolding pair_up half_up
  length-pair_up [] = refl
  length-pair_up (x ∷ []) = refl
  length-pair_up (x ∷ y ∷ xs) = ap suc (length-pair_up xs)

  pair_up-take : (k : ℕ) (xs : List A) → pair_up (take (double k) xs) ≡ take k (pair_up xs)
  unfolding pair_up double
  pair_up-take zero xs = refl
  pair_up-take (suc k) [] = refl
  pair_up-take (suc zero) (x ∷ []) = refl
  pair_up-take (suc (suc k)) (x ∷ []) = refl
  pair_up-take (suc k) (x ∷ y ∷ xs) = ap {B = List A} (λ r. inner x y ∷ r) (pair_up-take k xs)

  pair_up-drop : (k : ℕ) (xs : List A) → pair_up (drop (double k) xs) ≡ drop k (pair_up xs)
  unfolding pair_up double
  pair_up-drop zero xs = refl
  pair_up-drop (suc k) [] = refl
  pair_up-drop (suc zero) (x ∷ []) = refl
  pair_up-drop (suc (suc k)) (x ∷ []) = refl
  pair_up-drop (suc k) (x ∷ y ∷ xs) = pair_up-drop k xs

module _ {ℓ} {A : Type ℓ} (inner : A → A → A) (none_ : A) where
  -- The root over at most 2 ^ depth leaves; `none_` stands for that of no leaf.
  unfoldable pub split_root : ℕ → List A → A
  split_root zero [] = none_
  split_root zero (x ∷ xs) = x
  split_root (suc depth) xs =
      if leb (length xs) (2 ^ depth)
      then split_root depth xs
      else inner (split_root depth (take (2 ^ depth) xs)) (split_root depth (drop (2 ^ depth) xs))

  split_root_low :
      (d : ℕ) (xs : List A) → length xs ≤ 2 ^ d → split_root (suc d) xs ≡ split_root d xs
  unfolding split_root
  split_root_low d xs h = rw (le→leb (length xs) (2 ^ d) h)

  split_root_high :
      (d : ℕ) (xs : List A)
      → 2 ^ d < length xs
      → split_root (suc d) xs
        ≡ inner (split_root d (take (2 ^ d) xs)) (split_root d (drop (2 ^ d) xs))
  unfolding split_root
  split_root_high d xs h = rw (lt→leb_false (length xs) (2 ^ d) h)

  -- Joining the lowest layer first leaves the root as it is.
  pub split_root-pair_up :
      (d : ℕ) (xs : List A)
      → 0 < length xs
      → length xs ≤ 2 ^ suc d
      → split_root (suc d) xs ≡ split_root d (pair_up inner xs)
  split_root-pair_up zero [] h h' = absurd (omega arith)
  split_root-pair_up zero (x ∷ []) h h' = unfold split_root pair_up in refl
  split_root-pair_up zero (x ∷ y ∷ []) h h' = unfold split_root pair_up in refl
  split_root-pair_up zero (x ∷ y ∷ z ∷ xs) h h' = absurd (omega arith)
  split_root-pair_up (suc d) xs h h' = elim (dec_le (length xs) (2 ^ suc d)) [
    | yes low ↦
        split_root_low (suc d) xs low
        ∙ split_root-pair_up d xs h low
        ∙ sym (
            split_root_low d (pair_up inner xs)
              (omega (arith, length-pair_up inner xs, half_up-bounds (length xs), two-pow-succ d)))
    | no high ↦
        split_root_high (suc d) xs (omega arith)
        ∙ ap₂ inner
            (split_root-pair_up d (take (2 ^ suc d) xs)
                (omega (arith, length-take (2 ^ suc d) xs, one-le-pow (suc d) 2))
                (omega (arith, length-take (2 ^ suc d) xs, one-le-pow (suc d) 2))
              ∙ ap (split_root d) (rw two-pow-double (pair_up-take inner (2 ^ d) xs)))
            (split_root-pair_up d (drop (2 ^ suc d) xs)
                (omega (arith, length-drop (2 ^ suc d) xs, two-pow-succ (suc d)))
                (omega (arith, length-drop (2 ^ suc d) xs, two-pow-succ (suc d)))
              ∙ ap (split_root d) (rw two-pow-double (pair_up-drop inner (2 ^ d) xs)))
        ∙ sym (
            split_root_high d (pair_up inner xs)
              (omega (arith, length-pair_up inner xs, half_up-bounds (length xs), two-pow-succ d)))
  ]

  -- A depth that is more than enough changes nothing.
  pub split_root_deeper :
      (k d : ℕ) (xs : List A) → length xs ≤ 2 ^ d → split_root (k + d) xs ≡ split_root d xs
  split_root_deeper zero d xs h = ap (λ n. split_root n xs) (omega arith)
  split_root_deeper (suc k) d xs h =
      ap (λ n. split_root n xs) (omega arith)
      ∙ split_root_low (k + d) xs (le_trans h (pow-le-pow_right (omega arith) (omega arith)))
      ∙ split_root_deeper k d xs h

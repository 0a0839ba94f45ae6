-- ===== src/Merkle/Root.antt =====
-- The root that Merkle/Tendermint.antt computes is that of the CometBFT tree over the enabled leaves.
use mathlib.Core.List.{map}
use native.Mathlib.Nat.{one-le-pow}
use succinctx.Prelude.{
  ℕ, zero, suc, ◌+◌, ◌-◌, ◌^◌, ◌≤◌, ◌<◌, ◌≡◌, refl, sym, ap, ◌∙◌, Bool, true, false, List, [], ◌∷◌,
  map, arith, le→leb, length, length-append, take, replicate, length-take, length-replicate,
  length-map, take-take_append, take-map, ok,
}
use succinctx.Merkle.Log2.{log2_ceil_usize_lem}
use succinctx.Merkle.Split.{
  double, double-add, two-pow-double, half_up, half_up-bounds, pair_up, split_root,
  split_root-pair_up, split_root_deeper,
}
use succinctx.Merkle.Tendermint.{
  empty_bytes, resize, enabled_loop, leaf_hash, inner_hash, hash_merkle_layer, hash_leaves,
  layers_loop, get_root_from_hashed_leaves, compute_root_from_leaves,
}

-- `n` flags of `total` are set, the first ones.
unfoldable pub flags : ℕ → ℕ → List Bool
flags n zero = []
flags zero (suc total) = false ∷ flags zero total
flags (suc n) (suc total) = true ∷ flags n total

enabled_loop_off : (left i nb : ℕ) → enabled_loop left i nb false ≡ flags 0 left
unfolding enabled_loop flags
enabled_loop_off zero i nb = refl
enabled_loop_off (suc left) i nb = ground (arith, enabled_loop_off left (i + 1) nb)

enabled_loop-flags : (left i n : ℕ) → enabled_loop left i (i + n) true ≡ flags n left
unfolding enabled_loop flags
enabled_loop-flags zero i n = refl
enabled_loop-flags (suc left) i zero = ground (arith, enabled_loop_off left (i + 1) (i + 0))
enabled_loop-flags (suc left) i (suc n) = ground (arith, enabled_loop-flags left (i + 1) n)

module _ (sha256 : List ℕ → List ℕ) where
  -- A layer joins the enabled nodes in pairs, and enables what they were joined to.
  hash_merkle_layer-pair_up :
      (m n : ℕ) (xs : List (List ℕ))
      → length xs ≡ double m
      → n ≤ double m
      → (ys : List (List ℕ)) × (hash_merkle_layer sha256 xs (flags n (double m))
          ≡ ok (ys, flags (half_up n) m))
        × (length ys ≡ m)
        × (take (half_up n) ys ≡ pair_up (inner_hash sha256) (take n xs))
  unfolding hash_merkle_layer flags double half_up pair_up
  hash_merkle_layer-pair_up zero zero [] h h' = ([], refl, refl, refl)
  hash_merkle_layer-pair_up zero (suc n) [] h h' = absurd (omega arith)
  hash_merkle_layer-pair_up zero n (x ∷ xs) h h' = absurd (omega arith)
  hash_merkle_layer-pair_up (suc m) n [] h h' = absurd (omega arith)
  hash_merkle_layer-pair_up (suc m) n (x ∷ []) h h' = absurd (omega arith)
  hash_merkle_layer-pair_up (suc m) zero (x ∷ y ∷ xs) h h' =
      let (ys, e, l, t) = hash_merkle_layer-pair_up m 0 xs (omega arith) (omega arith) in
      (x ∷ ys, rw e, ap suc l, refl)
  hash_merkle_layer-pair_up (suc m) (suc zero) (x ∷ y ∷ xs) h h' =
      let (ys, e, l, t) = hash_merkle_layer-pair_up m 0 xs (omega arith) (omega arith) in
      (x ∷ ys, rw e, ap suc l, refl)
  hash_merkle_layer-pair_up (suc m) (suc (suc n)) (x ∷ y ∷ xs) h h' =
      let (ys, e, l, t) = hash_merkle_layer-pair_up m n xs (omega arith) (omega arith) in
      (inner_hash sha256 x y ∷ ys, rw e, ap suc l, ap (◌∷◌ (inner_hash sha256 x y)) t)

  layers_loop_step :
      (fuel : ℕ) (xs : List (List ℕ)) (enabled flags' : List Bool) (ys : List (List ℕ))
      → 1 < length xs
      → hash_merkle_layer sha256 xs enabled ≡ ok (ys, flags')
      → layers_loop sha256 (suc fuel) xs enabled ≡ layers_loop sha256 fuel ys flags'
  unfolding layers_loop
  layers_loop_step fuel [] enabled flags' ys h e = absurd (omega arith)
  layers_loop_step fuel (x ∷ []) enabled flags' ys h e = absurd (omega arith)
  layers_loop_step fuel (x ∷ y ∷ xs) enabled flags' ys h e = rw e

  layers_loop-split_root :
      (d n : ℕ) (xs : List (List ℕ))
      → length xs ≡ 2 ^ d
      → 0 < n
      → n ≤ 2 ^ d
      → layers_loop sha256 d xs (flags n (2 ^ d))
        ≡ ok (split_root (inner_hash sha256) [] d (take n xs))
  layers_loop-split_root zero n [] h h' h'' = absurd (omega arith)
  layers_loop-split_root zero zero (x ∷ xs) h h' h'' = absurd (omega arith)
  layers_loop-split_root zero (suc n) (x ∷ []) h h' h'' = unfold layers_loop split_root in refl
  layers_loop-split_root zero n (x ∷ y ∷ xs) h h' h'' = absurd (omega arith)
  layers_loop-split_root (suc d) n xs h h' h'' =
      let whole = two-pow-double d in
      let bounds = half_up-bounds n in
      let size = double-add (2 ^ d) in
      let (ys, e, l, t) = hash_merkle_layer-pair_up (2 ^ d) n xs (h ∙ whole) (rw whole at h'') in
      let taken = length-take n xs in
      layers_loop_step d xs (flags n (2 ^ suc d)) (flags (half_up n) (2 ^ d)) ys
        (omega (arith, one-le-pow d 2)) (rw whole e)
      ∙ layers_loop-split_root d (half_up n) ys l (omega arith) (omega arith)
      ∙ ap (λ r. ok (split_root (inner_hash sha256) [] d r)) t
      ∙ sym (
          ap ok (
            split_root-pair_up (inner_hash sha256) [] d (take n xs) (omega (arith, one-le-pow d 2))
              (omega arith)))

  -- The root over the leaf hashes `xs` as CometBFT specifies it; `usize` lengths are below 2 ^ 64.
  unfoldable pub comet_root : List (List ℕ) → List ℕ
  comet_root xs = split_root (inner_hash sha256) [] 64 xs

  pub take-resize :
      (n m : ℕ) (xs : List (List ℕ)) (v : List ℕ)
      → n ≤ length xs
      → length xs ≤ m
      → take n (resize xs m v) ≡ take n xs
  unfolding resize
  take-resize n m xs v h h' = take-take_append n m xs _ (omega arith) h

  pub length-resize :
      (m : ℕ) (xs : List (List ℕ)) (v : List ℕ) → length xs ≤ m → length (resize xs m v) ≡ m
  unfolding resize
  length-resize m xs v h = omega (
    arith,
    length-append (take m xs) (replicate (m - length xs) v),
    length-take m xs,
    length-replicate (m - length xs) v,
  )

  -- The circuit's root depends on the enabled leaf hashes alone, not on what fills the array: it is
  -- the CometBFT root over the first `nb` of them, for 1 to `MAX_NB_LEAVES` enabled leaves.
  pub get_root_from_hashed_leaves-comet_root :
      (leaf_hashes : List (List ℕ)) (nb : ℕ)
      → length leaf_hashes < 2 ^ 64
      → 0 < nb
      → nb ≤ length leaf_hashes
      → get_root_from_hashed_leaves sha256 leaf_hashes nb ≡ ok (comet_root (take nb leaf_hashes))
  unfolding get_root_from_hashed_leaves comet_root
  get_root_from_hashed_leaves-comet_root leaf_hashes nb small h h' =
      let (d, e, d-small, fits, least) = log2_ceil_usize_lem (length leaf_hashes) small in
      let on : enabled_loop (2 ^ d) 0 nb true ≡ flags nb (2 ^ d) =
        ap (λ n. enabled_loop (2 ^ d) 0 n true) (omega arith) ∙ enabled_loop-flags (2 ^ d) 0 nb in
      let deep : split_root (inner_hash sha256) [] 64 (take nb leaf_hashes)
          ≡ split_root (inner_hash sha256) [] d (take nb leaf_hashes) =
        ap (λ n. split_root (inner_hash sha256) [] n (take nb leaf_hashes)) (omega arith)
        ∙ split_root_deeper (inner_hash sha256) [] (64 - d) d (take nb leaf_hashes)
            (omega (arith, length-take nb leaf_hashes)) in
      rw (
        e,
        le→leb _ _ fits,
        on,
        layers_loop-split_root d nb (resize leaf_hashes (2 ^ d) empty_bytes)
            (length-resize (2 ^ d) leaf_hashes empty_bytes fits) h (omega arith),
        take-resize nb (2 ^ d) leaf_hashes empty_bytes h' fits,
        deep,
      )

  -- The same from the leaves: each is hashed behind a byte 0, and the CometBFT root is over the
  -- hashes of the first `nb` leaves.
  pub compute_root_from_leaves-comet_root :
      (leaves : List (List ℕ)) (nb : ℕ)
      → length leaves < 2 ^ 64
      → 0 < nb
      → nb ≤ length leaves
      → compute_root_from_leaves sha256 leaves nb
        ≡ ok (comet_root (map (λ leaf. sha256 (0 ∷ leaf)) (take nb leaves)))
  unfolding compute_root_from_leaves hash_leaves leaf_hash
  compute_root_from_leaves-comet_root leaves nb small h h' =
      let n = length-map leaves (λ leaf. sha256 (0 ∷ leaf)) in
      get_root_from_hashed_leaves-comet_root (map (λ leaf. sha256 (0 ∷ leaf)) leaves) nb
        (omega arith) h (omega arith)
      ∙ ap (λ r. ok (comet_root r)) (take-map nb (λ leaf. sha256 (0 ∷ leaf)) leaves)

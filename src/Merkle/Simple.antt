-- ===== src/Merkle/Simple.antt =====
-- plonky2x/core/src/frontend/merkle/simple.rs: the tree without prefixes, in which leaves that are
-- not enabled are empty bytes. Hashes, variables and `sha256` are as in Merkle/Tendermint.antt.
use native.Mathlib.Nat.{one-le-pow, two-pow-succ}
use succinctx.Prelude.{
  ℕ, zero, suc, ◌+◌, ◌-◌, ◌/◌, ◌^◌, ◌≤◌, ◌<◌, ◌≡◌, refl, sym, ap, ap₂, ◌∙◌, Bool, true, false, not,
  ◌&&◌, List, [], ◌∷◌, ◌++◌, map, arith, ltb, leb, ◌==◌, if◌then◌else◌, lt→ltb, le→leb, length,
  length-append, take, replicate, length-take, length-replicate, Outcome, ok, panic, stuck, ◌>>=◌,
  ◌>>◌, ensure,
}
use succinctx.Merkle.Log2.{log2_ceil_usize, log2_ceil_usize_lem}
use succinctx.Merkle.Split.{double, two-pow-double, pair_up, split_root, split_root-pair_up}
use succinctx.Merkle.Tendermint.{empty_bytes, resize}
use succinctx.Merkle.Root.{take-resize, length-resize}

-- The loop that replaces the leaves from index `i` on that are not enabled.
unfoldable pub fill_loop : List (List ℕ) → ℕ → ℕ → Bool → List (List ℕ)
fill_loop [] i nb_enabled_leaves is_enabled = []
fill_loop (x ∷ xs) i nb_enabled_leaves is_enabled =
    let at_end = i == nb_enabled_leaves in
    let is_enabled' = not at_end && is_enabled in
    (if is_enabled' then x else empty_bytes) ∷ fill_loop xs (i + 1) nb_enabled_leaves is_enabled'

module _ (sha256 : List ℕ → List ℕ) where
  unfoldable pub simple_leaf_hash : List ℕ → List ℕ
  simple_leaf_hash leaf = sha256 leaf

  unfoldable pub simple_inner_hash : List ℕ → List ℕ → List ℕ
  simple_inner_hash left right = sha256 (left ++ right)

  unfoldable pub simple_hash_merkle_layer : List (List ℕ) → Outcome (List (List ℕ))
  simple_hash_merkle_layer [] = ok []
  simple_hash_merkle_layer (x ∷ []) = panic
  simple_hash_merkle_layer (x ∷ y ∷ xs) = do
    hashes ← simple_hash_merkle_layer xs
    ok (simple_inner_hash x y ∷ hashes)

  unfoldable pub simple_hash_leaves : List (List ℕ) → List (List ℕ)
  simple_hash_leaves leaves = map simple_leaf_hash leaves

  -- `current_nodes[0]`.
  unfoldable pub first_node : List (List ℕ) → Outcome (List ℕ)
  first_node [] = panic
  first_node (x ∷ xs) = ok x

  -- `while merkle_layer_size > 1 { ...; merkle_layer_size /= 2; }`.
  unfoldable pub simple_layers_loop : ℕ → ℕ → List (List ℕ) → Outcome (List ℕ)
  unfolding first_node
  simple_layers_loop zero merkle_layer_size nodes =
      if ltb 1 merkle_layer_size then stuck else first_node nodes
  simple_layers_loop (suc fuel) merkle_layer_size nodes =
      let rest = (do
        nodes' ← simple_hash_merkle_layer nodes
        simple_layers_loop fuel (merkle_layer_size / 2) nodes') in
      if ltb 1 merkle_layer_size then rest else first_node nodes

  unfoldable pub simple_get_root_from_hashed_leaves : List (List ℕ) → ℕ → Outcome (List ℕ)
  simple_get_root_from_hashed_leaves leaf_hashes nb_enabled_leaves = do
    depth ← log2_ceil_usize (length leaf_hashes)
    let padded_nb_leaves = 2 ^ depth
    ensure (leb (length leaf_hashes) padded_nb_leaves)
    let current_nodes = resize leaf_hashes padded_nb_leaves empty_bytes
    simple_layers_loop depth padded_nb_leaves (fill_loop current_nodes 0 nb_enabled_leaves true)

  unfoldable pub simple_compute_root_from_leaves : List (List ℕ) → ℕ → Outcome (List ℕ)
  simple_compute_root_from_leaves leaves nb_enabled_leaves =
      simple_get_root_from_hashed_leaves (simple_hash_leaves leaves) nb_enabled_leaves

fill_loop_off :
    (xs : List (List ℕ)) (i nb : ℕ) → fill_loop xs i nb false ≡ replicate (length xs) empty_bytes
unfolding fill_loop
fill_loop_off [] i nb = refl
fill_loop_off (x ∷ xs) i nb = ground (arith, fill_loop_off xs (i + 1) nb)

-- Filling keeps the enabled leaves and puts empty bytes in the place of the others.
fill_loop-take :
    (xs : List (List ℕ)) (i n : ℕ)
    → n ≤ length xs
    → fill_loop xs i (i + n) true ≡ take n xs ++ replicate (length xs - n) empty_bytes
unfolding fill_loop
fill_loop-take [] i zero h = refl
fill_loop-take [] i (suc n) h = absurd (omega arith)
fill_loop-take (x ∷ xs) i zero h =
    let all : suc (length xs) - 0 ≡ suc (length xs) = omega arith in
    rw all (ground (arith, fill_loop_off xs (i + 1) (i + 0)))
fill_loop-take (x ∷ xs) i (suc n) h =
    let others : suc (length xs) - suc n ≡ length xs - n = omega arith in
    rw others (ground (arith, fill_loop-take xs (i + 1) n))

module _ (sha256 : List ℕ → List ℕ) where
  simple_hash_merkle_layer-pair_up :
      (m : ℕ) (xs : List (List ℕ))
      → length xs ≡ double m
      → (simple_hash_merkle_layer sha256 xs ≡ ok (pair_up (simple_inner_hash sha256) xs))
        × (length (pair_up (simple_inner_hash sha256) xs) ≡ m)
  unfolding simple_hash_merkle_layer double pair_up
  simple_hash_merkle_layer-pair_up zero [] h = (refl, refl)
  simple_hash_merkle_layer-pair_up zero (x ∷ xs) h = absurd (omega arith)
  simple_hash_merkle_layer-pair_up (suc m) [] h = absurd (omega arith)
  simple_hash_merkle_layer-pair_up (suc m) (x ∷ []) h = absurd (omega arith)
  simple_hash_merkle_layer-pair_up (suc m) (x ∷ y ∷ xs) h =
      let (e, l) = simple_hash_merkle_layer-pair_up m xs (omega arith) in (rw e, ap suc l)

  simple_layers_loop_step :
      (fuel size : ℕ) (xs ys : List (List ℕ))
      → 1 < size
      → simple_hash_merkle_layer sha256 xs ≡ ok ys
      → simple_layers_loop sha256 (suc fuel) size xs ≡ simple_layers_loop sha256 fuel (size / 2) ys
  unfolding simple_layers_loop
  simple_layers_loop_step fuel size xs ys h e = rw (lt→ltb 1 size h, e)

  simple_layers_loop-split_root :
      (d : ℕ) (xs : List (List ℕ))
      → length xs ≡ 2 ^ d
      → simple_layers_loop sha256 d (2 ^ d) xs ≡ ok (split_root (simple_inner_hash sha256) [] d xs)
  simple_layers_loop-split_root zero [] h = absurd (omega arith)
  simple_layers_loop-split_root zero (x ∷ xs) h = unfold simple_layers_loop split_root in refl
  simple_layers_loop-split_root (suc d) xs h =
      let twice = two-pow-succ d in
      let pos = one-le-pow d 2 in
      let ys = pair_up (simple_inner_hash sha256) xs in
      let (e, l) = simple_hash_merkle_layer-pair_up (2 ^ d) xs (h ∙ two-pow-double d) in
      let half : 2 ^ suc d / 2 ≡ 2 ^ d = omega arith in
      simple_layers_loop_step d (2 ^ suc d) xs ys (omega arith) e
      ∙ ap (λ n. simple_layers_loop sha256 d n ys) half
      ∙ simple_layers_loop-split_root d ys l
      ∙ sym (
          ap ok (split_root-pair_up (simple_inner_hash sha256) [] d xs (omega arith) (omega arith)))

  -- The simple root over an array of leaf hashes is the root of the full binary tree over the next
  -- power of two: the enabled hashes, then empty bytes. The array holds fewer than 2 ^ 64 hashes,
  -- and no more are enabled than it holds.
  pub simple_get_root_from_hashed_leaves-split_root :
      (leaf_hashes : List (List ℕ)) (nb : ℕ)
      → length leaf_hashes < 2 ^ 64
      → nb ≤ length leaf_hashes
      → (d : ℕ) × (log2_ceil_usize (length leaf_hashes) ≡ ok d)
        × (simple_get_root_from_hashed_leaves sha256 leaf_hashes nb
            ≡ ok (
                split_root
                  (simple_inner_hash sha256)
                  []
                  d
                  (take nb leaf_hashes ++ replicate (2 ^ d - nb) empty_bytes)))
  unfolding simple_get_root_from_hashed_leaves
  simple_get_root_from_hashed_leaves-split_root leaf_hashes nb small h =
      let (d, e, d-small, fits, least) = log2_ceil_usize_lem (length leaf_hashes) small in
      let nodes = resize leaf_hashes (2 ^ d) empty_bytes in
      let full = take nb leaf_hashes ++ replicate (2 ^ d - nb) empty_bytes in
      let size = length-resize sha256 (2 ^ d) leaf_hashes empty_bytes fits in
      let filled : fill_loop nodes 0 nb true ≡ full =
        ap (λ n. fill_loop nodes 0 n true) (omega arith)
        ∙ fill_loop-take nodes 0 nb (omega arith)
        ∙ ap₂ (λ a n. a ++ replicate n empty_bytes)
            (take-resize sha256 nb (2 ^ d) leaf_hashes empty_bytes h fits) (omega arith) in
      let full-size : length full ≡ 2 ^ d = omega (
        arith,
        length-append (take nb leaf_hashes) (replicate (2 ^ d - nb) empty_bytes),
        length-take nb leaf_hashes,
        length-replicate (2 ^ d - nb) empty_bytes,
      ) in
      (d, e, rw (e, le→leb _ _ fits, filled, simple_layers_loop-split_root d full full-size))

-- ===== src/Merkle/Tendermint.antt =====
-- plonky2x/core/src/frontend/merkle/tendermint.rs. A hash is the list of its 32 bytes, a boolean or
-- field variable the value that it takes, and `sha256` the function of the bytes that the hash
-- circuit `curta_sha256` constrains.
use succinctx.Prelude.{
  ℕ, zero, suc, ◌+◌, ◌-◌, ◌^◌, Bool, true, false, not, ◌&&◌, List, [], ◌∷◌, ◌++◌, map, leb, ◌==◌,
  if◌then◌else◌, length, take, replicate, Outcome, ok, panic, stuck, ◌>>=◌, ◌>>◌, ensure,
}
use succinctx.Merkle.Log2.{log2_ceil_usize}

-- `H256::from_slice(&[0u8; 32])`.
abbrev pub empty_bytes : List ℕ
empty_bytes = replicate 32 0

-- `Vec::resize`.
unfoldable pub resize : List (List ℕ) → ℕ → List ℕ → List (List ℕ)
resize xs n v = take n xs ++ replicate (n - length xs) v

-- The flags of the leaves from index `i` on, `left` of them.
unfoldable pub enabled_loop : ℕ → ℕ → ℕ → Bool → List Bool
enabled_loop zero i nb_enabled_leaves is_enabled = []
enabled_loop (suc left) i nb_enabled_leaves is_enabled =
    let at_end = i == nb_enabled_leaves in
    let is_enabled' = not at_end && is_enabled in
    is_enabled' ∷ enabled_loop left (i + 1) nb_enabled_leaves is_enabled'

module _ (sha256 : List ℕ → List ℕ) where
  unfoldable pub leaf_hash : List ℕ → List ℕ
  leaf_hash leaf = sha256 (0 ∷ leaf)

  unfoldable pub inner_hash : List ℕ → List ℕ → List ℕ
  inner_hash left right = sha256 (1 ∷ (left ++ right))

  unfoldable pub get_root_from_merkle_proof_hashed_leaf :
      List (List ℕ) → List Bool → List ℕ → Outcome (List ℕ)
  get_root_from_merkle_proof_hashed_leaf [] path_indices hash_so_far = ok hash_so_far
  get_root_from_merkle_proof_hashed_leaf (aunt ∷ proof) [] hash_so_far = panic
  get_root_from_merkle_proof_hashed_leaf (aunt ∷ proof) (path_index ∷ path_indices) hash_so_far =
      let left_hash_pair = inner_hash hash_so_far aunt in
      let right_hash_pair = inner_hash aunt hash_so_far in
      get_root_from_merkle_proof_hashed_leaf proof path_indices
        (if path_index then right_hash_pair else left_hash_pair)

  unfoldable pub get_root_from_merkle_proof : List (List ℕ) → List ℕ → List Bool → Outcome (List ℕ)
  get_root_from_merkle_proof proof leaf path_indices =
      get_root_from_merkle_proof_hashed_leaf proof path_indices (leaf_hash leaf)

  -- An odd number of nodes is an index out of bounds.
  unfoldable pub hash_merkle_layer : List (List ℕ) → List Bool → Outcome (List (List ℕ) × List Bool)
  hash_merkle_layer [] enabled = ok ([], [])
  hash_merkle_layer (x ∷ []) enabled = panic
  hash_merkle_layer (x ∷ y ∷ xs) [] = panic
  hash_merkle_layer (x ∷ y ∷ xs) (p ∷ []) = panic
  hash_merkle_layer (x ∷ y ∷ xs) (p ∷ q ∷ enabled) = do
    let both_nodes_enabled = p && q
    let both_nodes_disabled = not p && not q
    (hashes, flags) ← hash_merkle_layer xs enabled
    ok (
      (if both_nodes_enabled then inner_hash x y else x) ∷ hashes,
      (if both_nodes_disabled then false else true) ∷ flags,
    )

  unfoldable pub hash_leaves : List (List ℕ) → List (List ℕ)
  hash_leaves leaves = map leaf_hash leaves

  -- `while current_nodes.len() > 1`, then `current_nodes[0]`.
  unfoldable pub layers_loop : ℕ → List (List ℕ) → List Bool → Outcome (List ℕ)
  layers_loop fuel [] enabled = panic
  layers_loop fuel (x ∷ []) enabled = ok x
  layers_loop zero (x ∷ y ∷ xs) enabled = stuck
  layers_loop (suc fuel) (x ∷ y ∷ xs) enabled = do
    (nodes, flags) ← hash_merkle_layer (x ∷ y ∷ xs) enabled
    layers_loop fuel nodes flags

  -- The array has `MAX_NB_LEAVES` hashes; a layer is half as long as the one below it, so there
  -- are as many rounds as the logarithm says.
  unfoldable pub get_root_from_hashed_leaves : List (List ℕ) → ℕ → Outcome (List ℕ)
  get_root_from_hashed_leaves leaf_hashes nb_enabled_leaves = do
    depth ← log2_ceil_usize (length leaf_hashes)
    let padded_nb_leaves = 2 ^ depth
    ensure (leb (length leaf_hashes) padded_nb_leaves)
    layers_loop depth (resize leaf_hashes padded_nb_leaves empty_bytes)
        (enabled_loop padded_nb_leaves 0 nb_enabled_leaves true)

  unfoldable pub compute_root_from_leaves : List (List ℕ) → ℕ → Outcome (List ℕ)
  compute_root_from_leaves leaves nb_enabled_leaves =
      get_root_from_hashed_leaves (hash_leaves leaves) nb_enabled_leaves

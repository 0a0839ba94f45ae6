-- ===== src/Merkle/Tests.antt =====
-- The Merkle theorems at concrete inputs, with a function in the place of SHA-256 that has digests
-- of 32 bytes.
use succinctx.Prelude.{
  ℕ, ◌-◌, ◌%◌, ◌^◌, ◌≤◌, ◌≡◌, refl, ◌⊎◌, Bool, true, false, List, [], ◌∷◌, ◌++◌, map, arith, length,
  take, replicate, ok,
}
use succinctx.Merkle.Log2.{log2_loop, log2_ceil_usize, log2_ceil_usize_lem}
use succinctx.Merkle.Split.{split_root}
use succinctx.Merkle.Tendermint.{
  empty_bytes, inner_hash, leaf_hash, get_root_from_hashed_leaves, compute_root_from_leaves,
  get_root_from_merkle_proof, get_root_from_merkle_proof_hashed_leaf,
}
use succinctx.Merkle.Root.{
  comet_root, get_root_from_hashed_leaves-comet_root, compute_root_from_leaves-comet_root,
}
use succinctx.Merkle.Simple.{
  simple_inner_hash, simple_get_root_from_hashed_leaves,
  simple_get_root_from_hashed_leaves-split_root,
}
use succinctx.Merkle.Proof.{Collision, get_root_from_merkle_proof-binds}

abbrev toy_hash : List ℕ → List ℕ
toy_hash x = replicate 32 (length x % 256)

abbrev three : List (List ℕ)
three = (1 ∷ []) ∷ (2 ∷ 3 ∷ []) ∷ (4 ∷ []) ∷ []

abbrev path : List Bool
path = true ∷ false ∷ []

abbrev aunts : List (List ℕ)
aunts = replicate 32 7 ∷ replicate 32 9 ∷ []

log2_ceil_usize_lem_example :
    (k : ℕ) × (log2_ceil_usize 5 ≡ ok k) × (k ≤ 64) × (5 ≤ 2 ^ k) × ((j : ℕ) → 5 ≤ 2 ^ j → k ≤ j)
log2_ceil_usize_lem_example = log2_ceil_usize_lem 5 (omega arith)

log2_of_5 : log2_ceil_usize 5 ≡ ok 3
unfolding log2_ceil_usize log2_loop
log2_of_5 = refl

get_root_from_hashed_leaves-comet_root_example :
    get_root_from_hashed_leaves toy_hash three 2 ≡ ok (comet_root toy_hash (take 2 three))
get_root_from_hashed_leaves-comet_root_example =
    get_root_from_hashed_leaves-comet_root toy_hash three 2 (omega arith) (omega arith)
      (omega arith)

compute_root_from_leaves-comet_root_example :
    compute_root_from_leaves toy_hash three 3
    ≡ ok (comet_root toy_hash (map (λ leaf. toy_hash (0 ∷ leaf)) three))
compute_root_from_leaves-comet_root_example =
    compute_root_from_leaves-comet_root toy_hash three 3 (omega arith) (omega arith) (omega arith)

simple_get_root_from_hashed_leaves-split_root_example :
    (d : ℕ) × (log2_ceil_usize 3 ≡ ok d)
    × (simple_get_root_from_hashed_leaves toy_hash three 2
        ≡ ok (
            split_root
              (simple_inner_hash toy_hash)
              []
              d
              (take 2 three ++ replicate (2 ^ d - 2) empty_bytes)))
simple_get_root_from_hashed_leaves-split_root_example =
    simple_get_root_from_hashed_leaves-split_root toy_hash three 2 (omega arith) (omega arith)

toy_root : get_root_from_merkle_proof toy_hash aunts (5 ∷ []) path ≡ ok (replicate 32 65)
unfolding get_root_from_merkle_proof get_root_from_merkle_proof_hashed_leaf inner_hash leaf_hash
toy_root = refl

get_root_from_merkle_proof-binds_example :
    ((◌≡◌ {A = List ℕ} (5 ∷ []) (5 ∷ [])) × (aunts ≡ aunts)) ⊎ Collision toy_hash
get_root_from_merkle_proof-binds_example =
    get_root_from_merkle_proof-binds toy_hash (λ x. refl) path aunts aunts (5 ∷ []) (5 ∷ [])
      (replicate 32 65) refl refl (refl, (refl, tt)) (refl, (refl, tt)) toy_root toy_root

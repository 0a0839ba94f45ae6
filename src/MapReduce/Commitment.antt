-- ===== src/MapReduce/Commitment.antt =====
-- plonky2x/core/src/utils/poseidon/mod.rs and the Poseidon hash of
-- plonky2x/core/src/frontend/hash/poseidon/poseidon256.rs: the commitment to the inputs of a
-- map-reduce. The function on values and the one on variables are the same.
use succinctx.Prelude.{
  ℕ, zero, suc, ◌+◌, ◌*◌, ◌/◌, ◌%◌, Bool, true, false, not, List, [], ◌∷◌, ◌++◌, map, leb, ◌==◌,
  if◌then◌else◌, length, take, drop, Outcome, ok, stuck, ◌>>=◌, ◌>>◌, ensure,
}
use succinctx.Vars.Circuit.{CircuitVariable}
use succinctx.Vars.Collections.{array_elements}

-- `is_power_of_two` and the ceiling of `log2` of Rust's standard library, for a `usize`; on a power of
-- two that `f64` represents `log2` is exact.
unfoldable pub power_of_two_loop : ℕ → ℕ → Bool
power_of_two_loop zero n = n == 1
power_of_two_loop (suc fuel) n =
    let rest = power_of_two_loop fuel (n / 2) in
    if n == 1 then true else if n % 2 == 0 then rest else false

unfoldable pub is_power_of_two : ℕ → Bool
unfolding power_of_two_loop
is_power_of_two n = power_of_two_loop 64 n

unfoldable pub log2_ceil_loop : ℕ → ℕ → ℕ
log2_ceil_loop zero n = 0
log2_ceil_loop (suc fuel) n =
    let rest = log2_ceil_loop fuel ((n + 1) / 2) in if leb n 1 then 0 else suc rest

unfoldable pub log2_ceil : ℕ → ℕ
unfolding log2_ceil_loop
log2_ceil n = log2_ceil_loop 64 n

-- `inputs[i * B]` to `inputs[i * B + B - 1]` for the numbers from `i` on, `left` of them.
unfoldable pub chunk_loop {ℓ} : {A : Type ℓ} → ℕ → ℕ → ℕ → List A → List (List A)
chunk_loop b zero i inputs = []
chunk_loop b (suc left) i inputs = take b (drop (i * b) inputs) ∷ chunk_loop b left (i + 1) inputs

-- `% B` and `/ B` panic for 0.
unfoldable pub chunks {ℓ} : {A : Type ℓ} → ℕ → List A → Outcome (List (List A))
unfolding chunk_loop
chunks b inputs = do
  ensure (not (b == 0))
  ensure (length inputs % b == 0)
  ok (chunk_loop b (length inputs / b) 0 inputs)

-- `hash_n_to_hash_no_pad` is plonky2's.
module _ {F : Type 0} (hash_n_to_hash_no_pad : List F → List F) where
  unfoldable pub poseidon_hash_pair : List F → List F → List F
  poseidon_hash_pair left right = hash_n_to_hash_no_pad (left ++ right)

  -- The hash of the elements of the inputs of one map.
  unfoldable pub leaf_hash : (V : CircuitVariable F) → List V.Value → List F
  leaf_hash V inputs = hash_n_to_hash_no_pad (array_elements V inputs)

  unfoldable pub hash_layer : List (List F) → List (List F)
  unfolding poseidon_hash_pair
  hash_layer [] = []
  hash_layer (left ∷ []) = []
  hash_layer (left ∷ right ∷ leafs) = poseidon_hash_pair left right ∷ hash_layer leafs

  -- `while leafs.len() != 1`; an empty layer leaves nothing to join, and the loop would not end.
  unfoldable pub layers_loop : ℕ → List (List F) → Outcome (List F)
  unfolding hash_layer
  layers_loop fuel [] = stuck
  layers_loop fuel (leaf ∷ []) = ok leaf
  layers_loop zero (x ∷ y ∷ leafs) = stuck
  layers_loop (suc fuel) (x ∷ y ∷ leafs) = layers_loop fuel (hash_layer (x ∷ y ∷ leafs))

  unfoldable pub mapreduce_merkle_tree_root :
      (V : CircuitVariable F) → ℕ → List V.Value → Outcome (List F)
  unfolding chunks leaf_hash layers_loop
  mapreduce_merkle_tree_root V b inputs = do
    groups ← chunks b inputs
    let leafs = map (leaf_hash V) groups
    ensure (is_power_of_two (length leafs))
    layers_loop 64 leafs

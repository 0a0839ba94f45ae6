-- ===== src/Vars/Subarray.antt =====
-- plonky2x/core/src/frontend/vars/array.rs: the choice of an element by a variable, and the check
-- that a list of bytes is the part of another that begins at a variable place. A variable is the
-- field element that it has in a satisfying assignment.
use succinctx.Prelude.{
  ℕ, zero, suc, ◌+◌, ◌*◌, Bool, true, false, ◌&&◌, List, [], ◌∷◌, map, leb, if◌then◌else◌, length,
  take, drop, Outcome, ok, panic, ◌>>◌, ensure,
}
use succinctx.Sha.Pad.{Byte}
use succinctx.Vars.Byte.{from_elements}
use succinctx.Gates.Field.{Field}
use succinctx.Io.Schema.{flat_map}

-- plonky2's field has a test for equality, which `is_equal` of the builder computes.
module _ (f : Field) (is_equal : f.F → f.F → Bool) where
  open f use {F, zero_f, one_f, add, mul, from_canonical}

  -- The elements from number `i` on; `select` takes one of two values.
  unfoldable pub select_loop {ℓ} : {A : Type ℓ} → F → ℕ → List A → A → A
  select_loop selector i [] accumulator = accumulator
  select_loop selector i (x ∷ xs) accumulator =
      select_loop selector (i + 1) xs
        (if is_equal (from_canonical i) selector then x else accumulator)

  unfoldable pub select_array {ℓ} : {A : Type ℓ} → List A → F → Outcome A
  unfolding select_loop
  select_array [] selector = panic
  select_array (x ∷ xs) selector = ok (select_loop selector 0 (x ∷ xs) x)

  pub record Extraction : Type 0 where
    pub within_sub_array : Bool
    pub subarray_size : F
    pub r : F
    pub accumulator : F

  unfoldable pub bool_variable : Bool → F
  bool_variable b = if b then one_f else zero_f

  unfoldable pub is_within : F → F → ℕ → Bool → Bool
  is_within start_idx end_idx j within_sub_array =
      let started = if is_equal (from_canonical j) start_idx then true else within_sub_array in
      if is_equal (from_canonical j) end_idx then false else started

  unfoldable pub extraction_update : F → F → Extraction → Bool → Extraction
  unfolding bool_variable
  extraction_update challenge element state within =
      let r' = mul state.r (if within then challenge else one_f) in
      record {
        within_sub_array = within;
        subarray_size = add state.subarray_size (bool_variable within);
        r = r';
        accumulator = add state.accumulator (mul (bool_variable within) (mul r' element));
      }

  unfoldable pub extraction_step : F → F → F → ℕ → F → Extraction → Extraction
  unfolding is_within extraction_update
  extraction_step challenge start_idx end_idx j element state =
      extraction_update challenge element state
        (is_within start_idx end_idx j state.within_sub_array)

  unfoldable pub extraction_loop : F → F → F → ℕ → List F → Extraction → Extraction
  unfolding extraction_step
  extraction_loop challenge start_idx end_idx j [] state = state
  extraction_loop challenge start_idx end_idx j (x ∷ xs) state =
      extraction_loop challenge start_idx end_idx (j + 1) xs
        (extraction_step challenge start_idx end_idx j x state)

  -- The accumulator over the subarray that is given.
  unfoldable pub subarray_loop : F → List F → F → F → F
  subarray_loop challenge [] r accumulator = accumulator
  subarray_loop challenge (x ∷ xs) r accumulator =
      let r' = mul r challenge in subarray_loop challenge xs r' (add accumulator (mul r' x))

  -- One of the three rounds, with its challenge; `true` if its two assertions hold.
  unfoldable pub extraction_round : List F → List F → F → F → Bool
  unfolding extraction_loop subarray_loop
  extraction_round array sub_array start_idx challenge =
      let size = from_canonical (length sub_array) in
      let state = extraction_loop challenge start_idx (add start_idx size) 0 array (record {
        within_sub_array = false;
        subarray_size = zero_f;
        r = one_f;
        accumulator = zero_f;
      }) in
      is_equal state.subarray_size size
      && is_equal state.accumulator (subarray_loop challenge sub_array one_f zero_f)

  unfoldable pub to_variable : Byte → F
  to_variable byte = from_canonical (from_elements byte)

  abbrev pub min_seed_bits : ℕ
  min_seed_bits = 120

  abbrev pub num_loops : ℕ
  num_loops = 3

  -- The rounds that are left.
  unfoldable pub extraction_rounds : List F → List F → F → List F → Outcome (Unit {0})
  unfolding extraction_round
  extraction_rounds array sub_array start_idx [] = ok tt
  extraction_rounds array sub_array start_idx (c ∷ challenges) =
      ensure (extraction_round array sub_array start_idx c)
      >> extraction_rounds array sub_array start_idx challenges

  -- plonky2's challenger: the challenges for a seed, and how many of them.
  module _ (challenges : List (List Bool) → ℕ → List F) where
    -- Seven bytes go into one element of the seed: their bits, of each byte the highest first.
    unfoldable pub seed_chunks : ℕ → List Byte → List (List Bool)
    unfolding flat_map
    seed_chunks zero seed = []
    seed_chunks (suc fuel) [] = []
    seed_chunks (suc fuel) (b ∷ seed) =
        flat_map (take 7 (b ∷ seed)) ∷ seed_chunks fuel (drop 7 (b ∷ seed))

    unfoldable pub extract_subarray : List Byte → List Byte → F → List Byte → Outcome (Unit {0})
    unfolding extraction_rounds seed_chunks to_variable
    extract_subarray array sub_array start_idx seed = do
      ensure (leb min_seed_bits (8 * length seed))
      extraction_rounds (map to_variable array) (map to_variable sub_array) start_idx
          (challenges (seed_chunks (length seed) seed) num_loops)

-- ===== src/Sha/Variable.antt =====
-- plonky2x/core/src/frontend/hash/sha/sha256/pad.rs and sha512/pad.rs: the padding of a message whose
-- length is a variable. `split_le` is the one of plonky2, which gives the bits of a variable, the
-- lowest first.
use mathlib.Core.List.{reverse}
use succinctx.Prelude.{
  ℕ, zero, suc, ◌+◌, ◌-◌, ◌*◌, ◌/◌, ◌%◌, ◌^◌, Bool, true, false, not, ◌&&◌, ◌||◌, List, [], ◌∷◌,
  ◌++◌, leb, ◌==◌, if◌then◌else◌, length, get_or, replicate, Outcome, ok, panic,
}
use succinctx.Sha.Pad.{Byte, byte_constant, from_targets}

-- `last_chunk`: addition and division are those of `U32Variable`.
unfoldable pub compute_last_chunk : ℕ → ℕ → ℕ → ℕ
compute_last_chunk chunk_size length_size input_byte_length =
    (input_byte_length + length_size) % 2 ^ 32 / chunk_size

-- `ceil_div_usize` of plonky2.
unfoldable pub num_chunks : ℕ → ℕ → ℕ → ℕ
num_chunks chunk_size length_size n = (n + length_size + 1 + (chunk_size - 1)) / chunk_size

-- The bytes of one chunk from position `j` on, `left` of them, and the selector after them.
module _ (chunk_size length_size : ℕ) (padded_input length_bytes : List Byte)
    (input_byte_length : ℕ) where
  unfoldable pub byte_loop : ℕ → ℕ → ℕ → Bool → Bool → List Byte × Bool
  unfolding byte_constant
  byte_loop zero j chunk_offset is_last_chunk message_byte_selector = ([], message_byte_selector)
  byte_loop (suc left) j chunk_offset is_last_chunk message_byte_selector =
      let idx = chunk_offset + j in
      let is_last_msg_byte = idx == input_byte_length in
      let selector =
        if message_byte_selector then not is_last_msg_byte else message_byte_selector in
      let message =
        if selector then get_or padded_input idx (byte_constant 0) else byte_constant 0 in
      let byte = if is_last_msg_byte then byte_constant 0x80 else message in
      let byte' =
        if leb (chunk_size - length_size) j
        then (if is_last_chunk
            then get_or length_bytes (j % length_size) (byte_constant 0)
            else byte)
        else byte in
      let (bytes, last_selector) = byte_loop left (j + 1) chunk_offset is_last_chunk selector in
      (byte' ∷ bytes, last_selector)

  -- The chunks from index `i` on, `left` of them, and the two flags after them.
  unfoldable pub chunk_loop : ℕ → ℕ → ℕ → Bool → Bool → List Byte × Bool × Bool
  unfolding byte_loop
  chunk_loop zero i last_chunk reached_last_chunk selector = ([], reached_last_chunk, selector)
  chunk_loop (suc left) i last_chunk reached_last_chunk selector =
      let is_last_chunk = i == last_chunk in
      let (bytes, selector') = byte_loop chunk_size 0 (chunk_size * i) is_last_chunk selector in
      let (rest, reached, last_selector) =
        chunk_loop left (i + 1) last_chunk (reached_last_chunk || is_last_chunk) selector' in
      (bytes ++ rest, reached, last_selector)

unfoldable pub pad_variable_length :
    (ℕ → ℕ → List Bool) → ℕ → ℕ → List Byte → ℕ → Outcome (List Byte)
unfolding chunk_loop compute_last_chunk num_chunks byte_constant
pad_variable_length split_le chunk_size length_size input input_byte_length =
    let last_chunk = compute_last_chunk chunk_size length_size input_byte_length in
    let max_num_chunks = num_chunks chunk_size length_size (length input) in
    let padded_input =
      input ++ replicate (max_num_chunks * chunk_size - length input) (byte_constant 0) in
    let input_bit_length = input_byte_length * 8 % 2 ^ 32 in
    let length_bits = reverse (split_le input_bit_length (length_size * 8)) in
    let length_bytes = from_targets length_bits in
    let (padded_bytes, reached, selector) =
      chunk_loop chunk_size length_size padded_input length_bytes input_byte_length max_num_chunks 0
        last_chunk false true in
    if not selector && reached then ok padded_bytes else panic

unfoldable pub pad_sha256_variable_length :
    (ℕ → ℕ → List Bool) → List Byte → ℕ → Outcome (List Byte)
unfolding pad_variable_length
pad_sha256_variable_length split_le input input_byte_length =
    pad_variable_length split_le 64 8 input input_byte_length

unfoldable pub pad_sha512_variable_length :
    (ℕ → ℕ → List Bool) → List Byte → ℕ → Outcome (List Byte)
unfolding pad_variable_length
pad_sha512_variable_length split_le input input_byte_length =
    pad_variable_length split_le 128 16 input input_byte_length

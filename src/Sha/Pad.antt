-- ===== src/Sha/Pad.antt =====
-- plonky2x/core/src/frontend/hash/sha/sha256/pad.rs and sha512/pad.rs: the padding of a message of a
-- length that is known when the circuit is built. A `ByteVariable` is its eight bits, the highest
-- first.
use succinctx.Prelude.{
  ℕ, zero, suc, ◌+◌, ◌-◌, ◌*◌, ◌/◌, ◌%◌, ◌^◌, Bool, true, false, List, [], ◌∷◌, ◌++◌, map, ◌==◌,
  length, replicate,
}

abbrev pub Byte : Type 0
Byte = List Bool

unfoldable pub as_bool_targets : List Byte → List Bool
as_bool_targets [] = []
as_bool_targets (byte ∷ bytes) = byte ++ as_bool_targets bytes

-- The constant byte `v`.
unfoldable pub byte_constant : ℕ → Byte
byte_constant v =
    (v / 128 % 2 == 1)
    ∷ (v / 64 % 2 == 1)
    ∷ (v / 32 % 2 == 1)
    ∷ (v / 16 % 2 == 1)
    ∷ (v / 8 % 2 == 1)
    ∷ (v / 4 % 2 == 1)
    ∷ (v / 2 % 2 == 1)
    ∷ (v % 2 == 1)
    ∷ []

-- `to_be_bytes` of an unsigned integer of `size` bytes.
unfoldable pub to_be_bytes : ℕ → ℕ → List ℕ
to_be_bytes zero v = []
to_be_bytes (suc size) v = v / 256 ^ size % 256 ∷ to_be_bytes size v

-- Bits in groups of eight; what is left over is dropped.
unfoldable pub from_targets : List Bool → List Byte
from_targets (a ∷ b ∷ c ∷ d ∷ e ∷ f ∷ g ∷ h ∷ bits) =
    (a ∷ b ∷ c ∷ d ∷ e ∷ f ∷ g ∷ h ∷ []) ∷ from_targets bits
from_targets bits = []

-- With chunks of `chunk_bits` bits, and the length in `length_bytes` bytes.
unfoldable pub pad_message : ℕ → ℕ → List Byte → List Byte
unfolding as_bool_targets byte_constant to_be_bytes from_targets
pad_message chunk_bits length_bytes input =
    let bits = as_bool_targets input ++ (true ∷ []) in
    let l = length bits - 1 in
    let k = chunk_bits - (l + 1 + length_bytes * 8) % chunk_bits in
    from_targets (
      bits
      ++ (replicate k false ++ as_bool_targets (map byte_constant (to_be_bytes length_bytes l))))

unfoldable pub pad_message_sha256 : List Byte → List Byte
unfolding pad_message
pad_message_sha256 input = pad_message 512 8 input

unfoldable pub pad_message_sha512 : List Byte → List Byte
unfolding pad_message
pad_message_sha512 input = pad_message 1024 16 input

-- ===== src/Sha/Tests.antt =====
-- Runs of the padding at concrete inputs.
use succinctx.Prelude.{
  ℕ, zero, suc, ◌+◌, ◌*◌, ◌/◌, ◌%◌, ◌<◌, ◌≡◌, refl, Bool, List, [], ◌∷◌, ◌++◌, map, arith, leb,
  ◌==◌, if◌then◌else◌, length, replicate, ok, panic,
}
use succinctx.Sha.Pad.{Byte, byte_constant, to_be_bytes, pad_message_sha256}
use succinctx.Sha.Padding.{AreBytes, start_byte, zero_byte, pad_message_sha256-pads}
use succinctx.Sha.Variable.{num_chunks, pad_sha256_variable_length}
use succinctx.Sha.Accept.{pad_sha256_variable_length-accepts}

-- The bits of a number, the lowest first.
bits_of : ℕ → ℕ → List Bool
bits_of v zero = []
bits_of v (suc n) = (v % 2 == 1) ∷ bits_of (v / 2) n

abbrev abc : List Byte
unfolding byte_constant
abc = byte_constant 0x61 ∷ byte_constant 0x62 ∷ byte_constant 0x63 ∷ []

abc-AreBytes : AreBytes abc
unfolding byte_constant
abc-AreBytes = (refl, (refl, (refl, tt)))

pad_message_sha256-pads_example :
    (z : ℕ) × (z < 64)
    × (pad_message_sha256 abc
        ≡ abc
          ++ (start_byte
              ∷ (replicate z zero_byte ++ map byte_constant (to_be_bytes 8 (8 * length abc)))))
    × (length (pad_message_sha256 abc) % 64 ≡ 0)
pad_message_sha256-pads_example = pad_message_sha256-pads abc abc-AreBytes

-- 55 is the longest length that three bytes of input are accepted with.
pad_sha256_variable_length-accepts_example :
    (bytes : List Byte) × (length bytes ≡ 64 * num_chunks 64 8 (length abc))
    × (pad_sha256_variable_length bits_of abc 55
        ≡ (if leb (55 + 9) (64 * num_chunks 64 8 (length abc)) then ok bytes else panic))
pad_sha256_variable_length-accepts_example =
    pad_sha256_variable_length-accepts bits_of abc 55 (omega arith)

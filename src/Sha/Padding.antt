-- ===== src/Sha/Padding.antt =====
-- `pad_message` is the padding of FIPS 180-4: the bit 1, zeros up to the length, and the length.
use succinctx.Prelude.{
  ℕ, zero, suc, ◌+◌, ◌-◌, ◌*◌, ◌%◌, ◌<◌, ◌≡◌, refl, sym, ap, ◌∙◌, Bool, true, false, List, [], ◌∷◌,
  ◌++◌, map, append-nil, append_assoc, arith, length, length-append, replicate, length-replicate,
  length-map,
}
use succinctx.Sha.Pad.{
  Byte, as_bool_targets, from_targets, byte_constant, to_be_bytes, pad_message, pad_message_sha256,
  pad_message_sha512,
}

-- Every byte has eight bits.
abbrev pub AreBytes : List Byte → Type 0
AreBytes [] = Unit {0}
AreBytes (byte ∷ bytes) = (length byte ≡ 8) × AreBytes bytes

abbrev pub start_byte : Byte
start_byte = true ∷ replicate 7 false

abbrev pub zero_byte : Byte
zero_byte = replicate 8 false

from_targets-byte :
    (byte : Byte) (bits : List Bool)
    → length byte ≡ 8
    → from_targets (byte ++ bits) ≡ byte ∷ from_targets bits
unfolding from_targets
from_targets-byte (a ∷ b ∷ c ∷ d ∷ e ∷ f ∷ g ∷ h ∷ []) bits n = refl
from_targets-byte (a ∷ b ∷ c ∷ d ∷ e ∷ f ∷ g ∷ h ∷ i ∷ more) bits n = absurd (omega arith)
from_targets-byte [] bits n = absurd (omega arith)
from_targets-byte (a ∷ []) bits n = absurd (omega arith)
from_targets-byte (a ∷ b ∷ []) bits n = absurd (omega arith)
from_targets-byte (a ∷ b ∷ c ∷ []) bits n = absurd (omega arith)
from_targets-byte (a ∷ b ∷ c ∷ d ∷ []) bits n = absurd (omega arith)
from_targets-byte (a ∷ b ∷ c ∷ d ∷ e ∷ []) bits n = absurd (omega arith)
from_targets-byte (a ∷ b ∷ c ∷ d ∷ e ∷ f ∷ []) bits n = absurd (omega arith)
from_targets-byte (a ∷ b ∷ c ∷ d ∷ e ∷ f ∷ g ∷ []) bits n = absurd (omega arith)

from_targets-as_bool_targets :
    (bytes : List Byte) (bits : List Bool)
    → AreBytes bytes
    → from_targets (as_bool_targets bytes ++ bits) ≡ bytes ++ from_targets bits
unfolding as_bool_targets
from_targets-as_bool_targets [] bits n = refl
from_targets-as_bool_targets (byte ∷ bytes) bits n =
    ap from_targets (append_assoc byte (as_bool_targets bytes) bits)
    ∙ from_targets-byte byte (as_bool_targets bytes ++ bits) n.0
    ∙ ap (λ r. byte ∷ r) (from_targets-as_bool_targets bytes bits n.1)

from_targets-zeros :
    (z : ℕ) (bits : List Bool)
    → from_targets (replicate (8 * z) false ++ bits) ≡ replicate z zero_byte ++ from_targets bits
unfolding from_targets
from_targets-zeros zero bits = refl
from_targets-zeros (suc z) bits =
    let e : 8 * suc z ≡ suc (suc (suc (suc (suc (suc (suc (suc (8 * z)))))))) = omega arith in
    rw e (ap (λ r. zero_byte ∷ r) (from_targets-zeros z bits))

length-as_bool_targets :
    (bytes : List Byte) → AreBytes bytes → length (as_bool_targets bytes) ≡ 8 * length bytes
unfolding as_bool_targets
length-as_bool_targets [] n = refl
length-as_bool_targets (byte ∷ bytes) n =
    omega (arith, length-append byte (as_bool_targets bytes), n.0, length-as_bool_targets bytes n.1)

constants-AreBytes : (values : List ℕ) → AreBytes (map byte_constant values)
unfolding byte_constant
constants-AreBytes [] = tt
constants-AreBytes (v ∷ values) = (refl, constants-AreBytes values)

from_targets-all :
    (bytes : List Byte) → AreBytes bytes → from_targets (as_bool_targets bytes) ≡ bytes
unfolding from_targets
from_targets-all bytes n =
    ap from_targets (sym (append-nil (as_bool_targets bytes)))
    ∙ from_targets-as_bool_targets bytes [] n
    ∙ append-nil bytes

-- The padding, when the number of zero bits is seven and a multiple of eight.
pad_message-zeros :
    (chunk_bits size z : ℕ) (input : List Byte)
    → AreBytes input
    → chunk_bits - (8 * length input + 1 + size * 8) % chunk_bits ≡ 7 + 8 * z
    → pad_message chunk_bits size input
      ≡ input
        ++ (start_byte
            ∷ (replicate z zero_byte ++ map byte_constant (to_be_bytes size (8 * length input))))
unfolding pad_message from_targets
pad_message-zeros chunk_bits size z input n h =
    let bits = as_bool_targets input in
    let constants = map byte_constant (to_be_bytes size (8 * length input)) in
    let all = constants-AreBytes (to_be_bytes size (8 * length input)) in
    let l : length (bits ++ (true ∷ [])) - 1 ≡ 8 * length input =
      omega (arith, length-append bits (true ∷ []), length-as_bool_targets input n) in
    let seven : 7 + 8 * z ≡ suc (suc (suc (suc (suc (suc (suc (8 * z))))))) = omega arith in
    rw (l, h, append_assoc bits (true ∷ []))
      (from_targets-as_bool_targets input _ n
        ∙ ap (λ r. input ++ r)
            (rw seven (
              ap (λ r. start_byte ∷ r)
                (from_targets-zeros z (as_bool_targets constants)
                  ∙ ap (λ r. replicate z zero_byte ++ r) (from_targets-all constants all)))))

padded_length :
    (input zeros lengths : List Byte)
    → length (input ++ (start_byte ∷ (zeros ++ lengths)))
      ≡ length input + 1 + length zeros + length lengths
padded_length input zeros lengths =
    omega
      (arith, length-append input (start_byte ∷ (zeros ++ lengths)), length-append zeros lengths)

length-to_be_bytes : (size v : ℕ) → length (to_be_bytes size v) ≡ size
unfolding to_be_bytes
length-to_be_bytes zero v = refl
length-to_be_bytes (suc size) v = ap suc (length-to_be_bytes size v)

pad_message-length :
    (size z n : ℕ) (input : List Byte)
    → length
        (input ++ (start_byte ∷ (replicate z zero_byte ++ map byte_constant (to_be_bytes size n))))
      ≡ length input + 1 + z + size
pad_message-length size z n input = omega (
  arith,
  padded_length input (replicate z zero_byte) (map byte_constant (to_be_bytes size n)),
  length-replicate {A = Byte} z zero_byte,
  length-map (to_be_bytes size n) byte_constant,
  length-to_be_bytes size n,
)

-- For bytes of eight bits, pad_message_sha256 appends the byte 0x80, fewer than 64 bytes 0 and the
-- number of bits of the input in eight bytes, the highest first, and the result is whole chunks of
-- 64 bytes.
pub pad_message_sha256-pads :
    (input : List Byte)
    → AreBytes input
    → (z : ℕ) × (z < 64)
      × (pad_message_sha256 input
          ≡ input
            ++ (start_byte
                ∷ (replicate z zero_byte ++ map byte_constant (to_be_bytes 8 (8 * length input)))))
      × (length (pad_message_sha256 input) % 64 ≡ 0)
unfolding pad_message_sha256
pad_message_sha256-pads input n =
    let z = 63 - (length input + 8) % 64 in
    let e = pad_message-zeros 512 8 z input n (omega arith) in
    (
      z,
      omega arith,
      e,
      ap (λ p. length p % 64) e
          ∙ ap (λ m. m % 64) (pad_message-length 8 z (8 * length input) input)
          ∙ omega arith,
    )

-- For bytes of eight bits, pad_message_sha512 appends the byte 0x80, fewer than 128 bytes 0 and the
-- number of bits of the input in 16 bytes, the highest first, and the result is whole chunks of 128
-- bytes.
pub pad_message_sha512-pads :
    (input : List Byte)
    → AreBytes input
    → (z : ℕ) × (z < 128)
      × (pad_message_sha512 input
          ≡ input
            ++ (start_byte
                ∷ (replicate z zero_byte ++ map byte_constant (to_be_bytes 16 (8 * length input)))))
      × (length (pad_message_sha512 input) % 128 ≡ 0)
unfolding pad_message_sha512
pad_message_sha512-pads input n =
    let z = 127 - (length input + 16) % 128 in
    let e = pad_message-zeros 1024 16 z input n (omega arith) in
    (
      z,
      omega arith,
      e,
      ap (λ p. length p % 128) e
          ∙ ap (λ m. m % 128) (pad_message-length 16 z (8 * length input) input)
          ∙ omega arith,
    )

-- ===== src/Vars/Shift.antt =====
-- The operations of a `ByteVariable` compute those of a byte.
use succinctx.Prelude.{
  ℕ, zero, suc, ◌*◌, ◌/◌, ◌%◌, ◌^◌, ◌≤◌, ◌<◌, ◌≡◌, refl, Bool, true, false, [], ◌∷◌, arith, ◌==◌,
  ok,
}
use succinctx.Sha.Pad.{Byte, byte_constant}
use succinctx.Vars.Byte.{bit_value, from_elements, to_nibbles, shl, shr, rotate_left, rotate_right}

bit_value-le : (bit : Bool) → bit_value bit ≤ 1
unfolding bit_value
bit_value-le true = omega arith
bit_value-le false = omega arith

bit_value-odd : (v : ℕ) → bit_value (v % 2 == 1) ≡ v % 2
unfolding bit_value
bit_value-odd v = ground arith

-- Reading back the bits of a byte gives the byte.
pub from_elements-byte_constant : (v : ℕ) → v < 256 → from_elements (byte_constant v) ≡ v
unfolding from_elements byte_constant
from_elements-byte_constant v h =
    rw
      (
        bit_value-odd (v / 128),
        bit_value-odd (v / 64),
        bit_value-odd (v / 32),
        bit_value-odd (v / 16),
        bit_value-odd (v / 8),
        bit_value-odd (v / 4),
        bit_value-odd (v / 2),
        bit_value-odd v,
      )
      (omega arith)

bit_value-false : bit_value false ≡ 0
unfolding bit_value
bit_value-false = refl

ruleset bit_values = (arith, bit_value-false, bit_value-le)

module _ (a b c d e f g h : Bool) where
  abbrev pub bits : Byte
  bits = a ∷ b ∷ c ∷ d ∷ e ∷ f ∷ g ∷ h ∷ []

  -- The two nibbles of a byte are the byte divided by 16, and the remainder of that division.
  pub to_nibbles-value :
      (from_elements (to_nibbles bits).0 ≡ from_elements bits / 16)
      × (from_elements (to_nibbles bits).1 ≡ from_elements bits % 16)
  unfolding from_elements to_nibbles
  to_nibbles-value = (omega bit_values, omega bit_values)

  -- A byte shifted to the left by fewer than eight places is multiplied by a power of two, modulo
  -- 256.
  pub shl-value : (n : ℕ) → n < 8 → from_elements (shl bits n) ≡ from_elements bits * 2 ^ n % 256
  unfolding from_elements shl
  shl-value zero k = omega bit_values
  shl-value (suc zero) k = omega bit_values
  shl-value (suc (suc zero)) k = omega bit_values
  shl-value (suc (suc (suc zero))) k = omega bit_values
  shl-value (suc (suc (suc (suc zero)))) k = omega bit_values
  shl-value (suc (suc (suc (suc (suc zero))))) k = omega bit_values
  shl-value (suc (suc (suc (suc (suc (suc zero)))))) k = omega bit_values
  shl-value (suc (suc (suc (suc (suc (suc (suc zero))))))) k = omega bit_values
  shl-value (suc (suc (suc (suc (suc (suc (suc (suc n)))))))) k = absurd (omega arith)

  -- A byte shifted to the right by fewer than eight places is divided by a power of two.
  pub shr-value : (n : ℕ) → n < 8 → from_elements (shr bits n) ≡ from_elements bits / 2 ^ n
  unfolding from_elements shr
  shr-value zero k = omega bit_values
  shr-value (suc zero) k = omega bit_values
  shr-value (suc (suc zero)) k = omega bit_values
  shr-value (suc (suc (suc zero))) k = omega bit_values
  shr-value (suc (suc (suc (suc zero)))) k = omega bit_values
  shr-value (suc (suc (suc (suc (suc zero))))) k = omega bit_values
  shr-value (suc (suc (suc (suc (suc (suc zero)))))) k = omega bit_values
  shr-value (suc (suc (suc (suc (suc (suc (suc zero))))))) k = omega bit_values
  shr-value (suc (suc (suc (suc (suc (suc (suc (suc n)))))))) k = absurd (omega arith)

  -- A rotation to the right by at most eight places undoes the rotation to the left.
  pub rotate_right-rotate_left : (n : ℕ) → n ≤ 8 → rotate_right (rotate_left bits n) n ≡ ok bits
  unfolding rotate_right rotate_left
  rotate_right-rotate_left zero k = refl
  rotate_right-rotate_left (suc zero) k = refl
  rotate_right-rotate_left (suc (suc zero)) k = refl
  rotate_right-rotate_left (suc (suc (suc zero))) k = refl
  rotate_right-rotate_left (suc (suc (suc (suc zero)))) k = refl
  rotate_right-rotate_left (suc (suc (suc (suc (suc zero))))) k = refl
  rotate_right-rotate_left (suc (suc (suc (suc (suc (suc zero)))))) k = refl
  rotate_right-rotate_left (suc (suc (suc (suc (suc (suc (suc zero))))))) k = refl
  rotate_right-rotate_left (suc (suc (suc (suc (suc (suc (suc (suc zero)))))))) k = refl
  rotate_right-rotate_left (suc (suc (suc (suc (suc (suc (suc (suc (suc n))))))))) k =
      absurd (omega arith)

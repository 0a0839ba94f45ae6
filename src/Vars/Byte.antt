-- ===== src/Vars/Byte.antt =====
-- plonky2x/core/src/frontend/vars/byte.rs: the operations of a `ByteVariable` on its eight bits, the
-- highest first.
use succinctx.Prelude.{
  ℕ, zero, suc, ◌+◌, ◌-◌, ◌*◌, ◌%◌, ◌^◌, Bool, false, not, ◌&&◌, ◌||◌, List, [], ◌∷◌, ◌++◌, map,
  ltb, if◌then◌else◌, get_or, take, drop, replicate, Outcome, ok, panic,
}
use mathlib.Core.List.{reverse}
use succinctx.Sha.Pad.{Byte}

unfoldable pub bit_value : Bool → ℕ
bit_value bit = if bit then 1 else 0

-- The sum of `from_elements`, over the bits that are left and the place of the first of them.
unfoldable pub from_elements_loop : ℕ → ℕ → Byte → ℕ
unfolding bit_value
from_elements_loop zero i elements = 0
from_elements_loop (suc left) i elements =
    2 ^ (7 - i) * bit_value (get_or elements i false) + from_elements_loop left (i + 1) elements

unfoldable pub from_elements : Byte → ℕ
unfolding from_elements_loop
from_elements elements = from_elements_loop 8 0 elements

-- An array of eight bits from its elements.
unfoldable pub byte_array : (ℕ → Bool) → Byte
byte_array f = f 0 ∷ f 1 ∷ f 2 ∷ f 3 ∷ f 4 ∷ f 5 ∷ f 6 ∷ f 7 ∷ []

unfoldable pub to_nibbles : Byte → Byte × Byte
to_nibbles bits = (replicate 4 false ++ take 4 bits, replicate 4 false ++ take 4 (drop 4 bits))

unfoldable pub bitnot : Byte → Byte
bitnot self = map not self

unfoldable pub bitand : Byte → Byte → Byte
unfolding byte_array
bitand self rhs = byte_array (λ i. get_or self i false && get_or rhs i false)

unfoldable pub bitor : Byte → Byte → Byte
unfolding byte_array
bitor self rhs = byte_array (λ i. get_or self i false || get_or rhs i false)

unfoldable pub shl : Byte → ℕ → Byte
unfolding byte_array
shl self rhs = byte_array (λ i. if ltb 7 (i + rhs) then false else get_or self (i + rhs) false)

unfoldable pub shr : Byte → ℕ → Byte
unfolding byte_array
shr self rhs = byte_array (λ i. if ltb i rhs then false else get_or self (i - rhs) false)

unfoldable pub rotate_left : Byte → ℕ → Byte
unfolding byte_array
rotate_left self rhs = byte_array (λ i. get_or self ((i + rhs) % 8) false)

-- `i + 8 - rhs` overflows for a shift of more than 8, at `i = 0` first.
unfoldable pub rotate_right : Byte → ℕ → Outcome Byte
unfolding byte_array
rotate_right self rhs =
    if ltb 8 rhs then panic else ok (byte_array (λ i. get_or self ((i + 8 - rhs) % 8) false))

unfoldable pub bitxor : Byte → Byte → Byte
unfolding byte_array
bitxor self rhs =
    byte_array (λ i. if get_or self i false then not (get_or rhs i false) else get_or rhs i false)

unfoldable pub as_le_bits : Byte → List Bool
as_le_bits self = reverse self

unfoldable pub vec_to_nibbles : List Byte → List Byte
unfolding to_nibbles
vec_to_nibbles [] = []
vec_to_nibbles (b ∷ bytes) = let (left, right) = to_nibbles b in left ∷ right ∷ vec_to_nibbles bytes

-- The encoding of the Ethereum virtual machine, of variables and of values.
unfoldable pub evm_encode {ℓ} : {A : Type ℓ} → A → List A
evm_encode byte = byte ∷ []

unfoldable pub evm_decode {ℓ} : {A : Type ℓ} → List A → Outcome A
evm_decode [] = panic
evm_decode (byte ∷ []) = ok byte
evm_decode (byte ∷ b ∷ bytes) = panic

-- ===== src/Uint/Evm.antt =====
-- The bytes of a `U32Variable` in plonky2x/core/src/frontend/uint/uint32.rs, and the allocation of a
-- quotient in plonky2x/core/src/frontend/uint/num/biguint/mod.rs.
use succinctx.Prelude.{
  ℕ, zero, suc, ◌+◌, ◌-◌, ◌*◌, ◌/◌, ◌%◌, ◌^◌, ◌<◌, ◌≡◌, ap, List, [], ◌∷◌, arith, ltb, ◌==◌,
  if◌then◌else◌, length, get_or, Outcome, ok, panic, ◌>>=◌, ◌>>◌, ensure,
}
use succinctx.Uint.UintN.{first_limb}
use succinctx.Uint.BigUint.{div_rem_constraints}

-- The bytes from index `i` on, `left` of them, the highest first.
unfoldable pub encode_value_loop : ℕ → ℕ → ℕ → List ℕ
encode_value_loop zero i value = []
encode_value_loop (suc left) i value =
    value / 2 ^ ((4 - i - 1) * 8) % 256 ∷ encode_value_loop left (i + 1) value

unfoldable pub encode_value : ℕ → List ℕ
unfolding encode_value_loop
encode_value value = encode_value_loop 4 0 value

-- The bytes take different bits of the value, so `|=` adds.
unfoldable pub decode_value_loop : ℕ → ℕ → List ℕ → ℕ → ℕ
decode_value_loop zero i bytes value = value
decode_value_loop (suc left) i bytes value =
    decode_value_loop left (i + 1) bytes (value + get_or bytes i 0 * 2 ^ ((4 - i - 1) * 8))

unfoldable pub decode_value : List ℕ → Outcome ℕ
unfolding decode_value_loop
decode_value bytes = do ensure (length bytes == 4); ok (decode_value_loop 4 0 bytes 0)

-- Encoding a value below 2 ^ 32 and decoding the bytes gives the value.
pub decode_value-encode_value : (v : ℕ) → v < 2 ^ 32 → decode_value (encode_value v) ≡ ok v
unfolding decode_value encode_value
decode_value-encode_value v h = ap ok (omega arith)

-- The constraints on a quotient and a remainder of the lengths that are allocated for them.
unfoldable pub div_rem_with : ℕ → List ℕ → List ℕ → List ℕ → List ℕ → Outcome (Unit {0})
div_rem_with div_num_limbs a b div rem = do
  ensure (length div == div_num_limbs)
  ensure (length rem == length b)
  div_rem_constraints a b div rem

unfoldable pub div_rem_biguint : List ℕ → List ℕ → List ℕ → List ℕ → Outcome (Unit {0})
unfolding div_rem_with
div_rem_biguint a b div rem = div_rem_with (length a) a b div rem

-- `a_len - b_len + 1` overflows when `b_len` is `a_len + 1`.
unfoldable pub div_num_limbs_unsafe : ℕ → ℕ → Outcome ℕ
div_num_limbs_unsafe a_len b_len =
    if ltb (a_len + 1) b_len
    then ok 0
    else if ltb a_len b_len
    then panic
    else ok (a_len - b_len + 1)

unfoldable pub div_rem_biguint_unsafe : List ℕ → List ℕ → List ℕ → List ℕ → Outcome (Unit {0})
unfolding div_rem_with div_num_limbs_unsafe
div_rem_biguint_unsafe a b div rem = do
  div_num_limbs ← div_num_limbs_unsafe (length a) (length b)
  div_rem_with div_num_limbs a b div rem

unfoldable pub div_biguint : List ℕ → List ℕ → List ℕ → List ℕ → Outcome (List ℕ)
unfolding div_rem_biguint
div_biguint a b div rem = do div_rem_biguint a b div rem; ok div

unfoldable pub div_biguint_unsafe : List ℕ → List ℕ → List ℕ → List ℕ → Outcome (List ℕ)
unfolding div_rem_biguint_unsafe
div_biguint_unsafe a b div rem = do div_rem_biguint_unsafe a b div rem; ok div

unfoldable pub rem_biguint : List ℕ → List ℕ → List ℕ → List ℕ → Outcome (List ℕ)
unfolding div_rem_biguint
rem_biguint a b div rem = do div_rem_biguint a b div rem; ok rem

unfoldable pub div_u32_variable : ℕ → ℕ → List ℕ → List ℕ → Outcome ℕ
unfolding div_biguint
div_u32_variable self rhs div rem = do
  quotient_biguint ← div_biguint (self ∷ []) (rhs ∷ []) div rem
  first_limb quotient_biguint

-- ===== src/Uint/BigUint.antt =====
-- plonky2x/core/src/frontend/uint/num/biguint/mod.rs: integers of any number of limbs, the lowest
-- limb first, on the gadgets of Uint/Gadgets.antt.
use Prim.Native.Nat.{max}
use succinctx.Prelude.{
  ℕ, zero, suc, ◌+◌, ◌-◌, ◌*◌, ◌^◌, min, Bool, true, false, List, [], ◌∷◌, ◌++◌, map, ltb, ◌==◌,
  if◌then◌else◌, length, get_or, replicate, Outcome, ok, panic, ◌>>=◌, ◌>>◌, ensure,
}
use succinctx.Uint.Gadgets.{
  add_many_u32, add_u32s_with_carry, mul_u32, sub_u32, is_equal_u32, list_le_u32_circuit,
}

-- `connect_u32` and `assert_zero_u32` on the limbs from index `i` on, `left` of them.
unfoldable pub connect_loop : ℕ → ℕ → List ℕ → List ℕ → Outcome (Unit {0})
connect_loop zero i lhs rhs = ok tt
connect_loop (suc left) i lhs rhs = do
  ensure (get_or lhs i 0 == get_or rhs i 0)
  connect_loop left (i + 1) lhs rhs

unfoldable pub assert_zero_loop : ℕ → ℕ → List ℕ → Outcome (Unit {0})
assert_zero_loop zero i limbs = ok tt
assert_zero_loop (suc left) i limbs = do
  ensure (get_or limbs i 0 == 0)
  assert_zero_loop left (i + 1) limbs

unfoldable pub connect_biguint : List ℕ → List ℕ → Outcome (Unit {0})
connect_biguint lhs rhs = do
  let min_limbs = min (length lhs) (length rhs)
  connect_loop min_limbs 0 lhs rhs
  assert_zero_loop (length lhs - min_limbs) min_limbs lhs
  assert_zero_loop (length rhs - min_limbs) min_limbs rhs

unfoldable pub pad_biguints : List ℕ → List ℕ → List ℕ × List ℕ
pad_biguints a b =
    if ltb (length b) (length a)
    then (a, b ++ replicate (length a - length b) 0)
    else (a ++ replicate (length b - length a) 0, b)

unfoldable pub cmp_biguint : List ℕ → List ℕ → Outcome ℕ
unfolding pad_biguints
cmp_biguint a b = let (a', b') = pad_biguints a b in list_le_u32_circuit a' b'

-- The limbs from index `i` on, `left` of them, and the last carry.
unfoldable pub add_loop : ℕ → ℕ → ℕ → List ℕ → List ℕ → Outcome (List ℕ)
add_loop zero i carry a b = ok (carry ∷ [])
add_loop (suc left) i carry a b = do
  let a_limb = if ltb i (length a) then get_or a i 0 else 0
  let b_limb = if ltb i (length b) then get_or b i 0 else 0
  (new_limb, new_carry) ← add_many_u32 (carry ∷ a_limb ∷ b_limb ∷ [])
  limbs ← add_loop left (i + 1) new_carry a b
  ok (new_limb ∷ limbs)

unfoldable pub add_biguint : List ℕ → List ℕ → Outcome (List ℕ)
add_biguint a b = let num_limbs = max (length a) (length b) in add_loop num_limbs 0 0 a b

-- Limb by limb; the lists are equally long once they are padded.
unfoldable pub sub_loop : ℕ → List ℕ → List ℕ → Outcome (List ℕ)
sub_loop borrow [] b = ok []
sub_loop borrow (x ∷ xs) [] = panic
sub_loop borrow (x ∷ xs) (y ∷ ys) = do
  let (result, new_borrow) = sub_u32 x y borrow
  limbs ← sub_loop new_borrow xs ys
  ok (result ∷ limbs)

unfoldable pub sub_biguint : List ℕ → List ℕ → Outcome (List ℕ)
unfolding pad_biguints
sub_biguint a b = let (a', b') = pad_biguints a b in sub_loop 0 a' b'

-- `to_add[i].push(v)`; an index out of bounds panics.
unfoldable pub push_at : ℕ → ℕ → List (List ℕ) → Outcome (List (List ℕ))
push_at i v [] = panic
push_at zero v (c ∷ cs) = ok ((c ++ (v ∷ [])) ∷ cs)
push_at (suc i) v (c ∷ cs) = do cs' ← push_at i v cs; ok (c ∷ cs')

-- The products of one limb of `a`, at index `i`, with the limbs of `b` from index `j` on.
unfoldable pub row_loop : ℕ → ℕ → List ℕ → ℕ → List (List ℕ) → Outcome (List (List ℕ))
row_loop i x [] j to_add = ok to_add
row_loop i x (y ∷ ys) j to_add = do
  let (product, carry) = mul_u32 x y
  to_add' ← push_at (i + j) product to_add
  to_add'' ← push_at (i + j + 1) carry to_add'
  row_loop i x ys (j + 1) to_add''

unfoldable pub rows_loop : ℕ → List ℕ → List ℕ → List (List ℕ) → Outcome (List (List ℕ))
rows_loop i [] b to_add = ok to_add
rows_loop i (x ∷ xs) b to_add = do to_add' ← row_loop i x b 0 to_add; rows_loop (i + 1) xs b to_add'

unfoldable pub carry_loop : ℕ → List (List ℕ) → Outcome (List ℕ)
carry_loop carry [] = ok (carry ∷ [])
carry_loop carry (summands ∷ to_add) = do
  (new_result, new_carry) ← add_u32s_with_carry summands carry
  limbs ← carry_loop new_carry to_add
  ok (new_result ∷ limbs)

unfoldable pub mul_biguint : List ℕ → List ℕ → Outcome (List ℕ)
mul_biguint a b = do
  let total_limbs = length a + length b
  to_add ← rows_loop 0 a b (replicate total_limbs [])
  carry_loop 0 to_add

unfoldable pub mul_biguint_by_bool : List ℕ → ℕ → List ℕ
mul_biguint_by_bool a b = map (λ l. l * b) a

unfoldable pub mul_add_biguint : List ℕ → List ℕ → List ℕ → Outcome (List ℕ)
mul_add_biguint x y z = do prod ← mul_biguint x y; add_biguint prod z

-- `range_check_u32_circuit`.
unfoldable pub range_check_u32_circuit : List ℕ → Outcome (Unit {0})
range_check_u32_circuit [] = ok tt
range_check_u32_circuit (x ∷ xs) = do ensure (ltb x (2 ^ 32)); range_check_u32_circuit xs

-- The constraints that `_div_rem_biguint` puts on the quotient and the remainder, which the prover
-- is free to choose.
unfoldable pub div_rem_constraints : List ℕ → List ℕ → List ℕ → List ℕ → Outcome (Unit {0})
div_rem_constraints a b div rem = do
  range_check_u32_circuit div
  range_check_u32_circuit rem
  div_b ← mul_biguint div b
  div_b_plus_rem ← add_biguint div_b rem
  connect_biguint a div_b_plus_rem
  cmp_b_rem ← cmp_biguint b rem
  ensure (cmp_b_rem == 0)

-- The comparisons of `is_equal_biguint` on limbs, and with zero past the shorter operand.
unfoldable pub equal_loop : ℕ → ℕ → Bool → List ℕ → List ℕ → Bool
unfolding is_equal_u32
equal_loop zero i ret a b = ret
equal_loop (suc left) i ret a b =
    equal_loop left (i + 1) (if is_equal_u32 (get_or a i 0) (get_or b i 0) then ret else false) a b

unfoldable pub zero_loop : ℕ → ℕ → Bool → List ℕ → Bool
unfolding is_equal_u32
zero_loop zero i ret a = ret
zero_loop (suc left) i ret a =
    zero_loop left (i + 1) (if is_equal_u32 (get_or a i 0) 0 then ret else false) a

unfoldable pub is_equal_biguint : List ℕ → List ℕ → Bool
is_equal_biguint a b =
    let min_limbs = min (length a) (length b) in
    let common = equal_loop min_limbs 0 true a b in
    let a_rest = zero_loop (length a - min_limbs) min_limbs common a in
    zero_loop (length b - min_limbs) min_limbs a_rest b

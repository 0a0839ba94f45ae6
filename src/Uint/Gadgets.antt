-- ===== src/Uint/Gadgets.antt =====
-- plonky2x/core/src/frontend/uint/num/u32/gadgets: the operations on 32-bit values. A target is the
-- value that it has in a satisfying assignment. Each gate forces its outputs (Gates has its
-- constraints), so an operation is a function of its inputs, which are below 2 ^ 32; `panic` stands
-- for an assertion that fails while the circuit is built, and for constraints that no assignment
-- satisfies.
use succinctx.Prelude.{
  ℕ, ◌+◌, ◌-◌, ◌*◌, ◌/◌, ◌%◌, ◌^◌, Bool, List, [], ◌∷◌, ltb, leb, ◌==◌, if◌then◌else◌, length,
  Outcome, ok, panic,
}

abbrev pub max_num_addends : ℕ
max_num_addends = 64

-- The low and high half of `x * y + z`, by `U32ArithmeticGate`.
unfoldable pub mul_add_u32 : ℕ → ℕ → ℕ → ℕ × ℕ
mul_add_u32 x y z = ((x * y + z) % 2 ^ 32, (x * y + z) / 2 ^ 32)

unfoldable pub add_u32 : ℕ → ℕ → ℕ × ℕ
unfolding mul_add_u32
add_u32 a b = mul_add_u32 a 1 b

unfoldable pub mul_u32 : ℕ → ℕ → ℕ × ℕ
unfolding mul_add_u32
mul_u32 a b = mul_add_u32 a b 0

unfoldable pub sum : List ℕ → ℕ
sum [] = 0
sum (x ∷ xs) = x + sum xs

-- `U32AddManyGate` has at most 64 addends, and three limbs of two bits for the carry.
unfoldable pub add_many_gate : List ℕ → ℕ → Outcome (ℕ × ℕ)
add_many_gate addends carry =
    let total = sum addends + carry in
    if ltb max_num_addends (length addends)
    then panic
    else if ltb (total / 2 ^ 32) 64
    then ok (total % 2 ^ 32, total / 2 ^ 32)
    else panic

unfoldable pub add_many_u32 : List ℕ → Outcome (ℕ × ℕ)
unfolding add_u32 add_many_gate
add_many_u32 [] = ok (0, 0)
add_many_u32 (x ∷ []) = ok (x, 0)
add_many_u32 (x ∷ y ∷ []) = ok (add_u32 x y)
add_many_u32 (x ∷ y ∷ z ∷ to_add) = add_many_gate (x ∷ y ∷ z ∷ to_add) 0

unfoldable pub add_u32s_with_carry : List ℕ → ℕ → Outcome (ℕ × ℕ)
unfolding add_u32 add_many_gate
add_u32s_with_carry [] carry = add_many_gate [] carry
add_u32s_with_carry (x ∷ []) carry = ok (add_u32 x carry)
add_u32s_with_carry (x ∷ y ∷ to_add) carry = add_many_gate (x ∷ y ∷ to_add) carry

-- `x - y - borrow` and the borrow from the next limb, by `U32SubtractionGate`; `borrow` is 0 or 1.
unfoldable pub sub_u32 : ℕ → ℕ → ℕ → ℕ × ℕ
sub_u32 x y borrow = ((x + 2 ^ 32 - y - borrow) % 2 ^ 32, (if ltb x (y + borrow) then 1 else 0))

unfoldable pub is_equal_u32 : ℕ → ℕ → Bool
is_equal_u32 x y = x == y

-- `ComparisonGate`: 1 if `a ≤ b`, else 0.
unfoldable pub comparison : ℕ → ℕ → ℕ
comparison a b = if leb a b then 1 else 0

-- The loop of `list_lte_circuit`; on 0 and 1 the subtraction does not wrap.
unfoldable pub list_lte_loop : ℕ → List ℕ → List ℕ → Outcome ℕ
unfolding comparison
list_lte_loop result [] [] = ok result
list_lte_loop result [] (b ∷ bs) = panic
list_lte_loop result (a ∷ as') [] = panic
list_lte_loop result (a ∷ as') (b ∷ bs) =
    let a_le_b = comparison a b in
    let b_le_a = comparison b a in list_lte_loop (a_le_b * b_le_a * result + (1 - b_le_a)) as' bs

unfoldable pub list_le_u32_circuit : List ℕ → List ℕ → Outcome ℕ
unfolding list_lte_loop
list_le_u32_circuit as' bs = list_lte_loop 1 as' bs

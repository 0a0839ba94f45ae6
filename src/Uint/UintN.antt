-- ===== src/Uint/UintN.antt =====
-- plonky2x/core/src/frontend/uint/uint32_n.rs and uint32.rs: integers of `c` limbs, on the operations of
-- Uint/BigUint.antt.
use succinctx.Prelude.{
  ℕ, zero, suc, Bool, true, false, ◌&&◌, ◌||◌, List, [], ◌∷◌, ◌==◌, if◌then◌else◌, length, set,
  get_or, replicate, Outcome, ok, panic, ◌>>=◌, ◌>>◌, ensure,
}
use succinctx.Uint.Gadgets.{comparison}
use succinctx.Uint.BigUint.{add_biguint, sub_biguint, mul_biguint, div_rem_constraints}

-- The first `c` limbs; an index out of bounds panics.
unfoldable pub copy_limbs : ℕ → List ℕ → Outcome (List ℕ)
copy_limbs zero limbs = ok []
copy_limbs (suc c) [] = panic
copy_limbs (suc c) (limb ∷ limbs) = do rest ← copy_limbs c limbs; ok (limb ∷ rest)

unfoldable pub add : ℕ → List ℕ → List ℕ → Outcome (List ℕ)
add c self rhs = do
  ensure (length self == length rhs)
  ensure (length self == c)
  sum_biguint ← add_biguint self rhs
  copy_limbs c sum_biguint

unfoldable pub sub : ℕ → List ℕ → List ℕ → Outcome (List ℕ)
sub c self rhs = do
  ensure (length self == length rhs)
  ensure (length self == c)
  diff_biguint ← sub_biguint self rhs
  copy_limbs c diff_biguint

unfoldable pub mul : ℕ → List ℕ → List ℕ → Outcome (List ℕ)
mul c self rhs = do
  ensure (length self == length rhs)
  ensure (length self == c)
  product_biguint ← mul_biguint self rhs
  copy_limbs c product_biguint

-- For the quotient and the remainder that the prover gives.
unfoldable pub div : ℕ → List ℕ → List ℕ → List ℕ → List ℕ → Outcome (List ℕ)
div c self rhs quotient_biguint rem_biguint = do
  ensure (length self == length rhs)
  ensure (length self == c)
  div_rem_constraints self rhs quotient_biguint rem_biguint
  copy_limbs c quotient_biguint

unfoldable pub rem : ℕ → List ℕ → List ℕ → List ℕ → List ℕ → Outcome (List ℕ)
rem c self rhs quotient_biguint rem_biguint = do
  ensure (length self == length rhs)
  ensure (length self == c)
  div_rem_constraints self rhs quotient_biguint rem_biguint
  copy_limbs c rem_biguint

-- `U32Variable::lte`, by `list_lte_circuit` on single limbs.
unfoldable pub lte_u32 : ℕ → ℕ → Bool
unfolding comparison
lte_u32 self rhs = comparison self rhs == 1

-- The limbs below index `left` are still to be compared, the highest first.
unfoldable pub lte_loop : ℕ → Bool → Bool → List ℕ → List ℕ → Bool
unfolding lte_u32
lte_loop zero lte_acc equal_so_far self rhs = lte_acc || equal_so_far
lte_loop (suc left) lte_acc equal_so_far self rhs =
    let x = get_or self left 0 in
    let y = get_or rhs left 0 in
    lte_loop left (if equal_so_far then lte_u32 x y else lte_acc) (equal_so_far && (x == y)) self
      rhs

unfoldable pub lte : ℕ → List ℕ → List ℕ → Bool
unfolding lte_loop
lte c self rhs = lte_loop c false true self rhs

unfoldable pub first_limb : List ℕ → Outcome ℕ
first_limb [] = panic
first_limb (limb ∷ limbs) = ok limb

unfoldable pub add_u32_variable : ℕ → ℕ → Outcome ℕ
unfolding first_limb
add_u32_variable self rhs = do
  sum_biguint ← add_biguint (self ∷ []) (rhs ∷ [])
  first_limb sum_biguint

unfoldable pub sub_u32_variable : ℕ → ℕ → Outcome ℕ
unfolding first_limb
sub_u32_variable self rhs = do
  diff_biguint ← sub_biguint (self ∷ []) (rhs ∷ [])
  first_limb diff_biguint

unfoldable pub mul_u32_variable : ℕ → ℕ → Outcome ℕ
unfolding first_limb
mul_u32_variable self rhs = do
  product_biguint ← mul_biguint (self ∷ []) (rhs ∷ [])
  first_limb product_biguint

unfoldable pub zero_limbs : ℕ → List ℕ
zero_limbs c = replicate c 0

unfoldable pub one_limbs : ℕ → List ℕ
one_limbs c = set (replicate c 0) 0 1

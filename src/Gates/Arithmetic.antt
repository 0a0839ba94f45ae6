-- ===== src/Gates/Arithmetic.antt =====
-- plonky2x/core/src/frontend/uint/num/u32/gates/arithmetic_u32.rs: `x * y + z` on 32-bit values. The
-- wires of a row are a function of their index.
use succinctx.Prelude.{ℕ, ◌+◌, ◌-◌, ◌*◌, ◌/◌, ◌^◌, min, List, [], ◌∷◌, ◌++◌}
use succinctx.Gates.Field.{Field, for_ops}
use succinctx.Gates.Limbs.{limbs_loop}

-- The two numbers of plonky2's `CircuitConfig` that the gates read.
pub record CircuitConfig : Type 0 where
  pub num_wires : ℕ
  pub num_routed_wires : ℕ

pub record U32ArithmeticGate : Type 0 where
  pub num_ops : ℕ

abbrev pub num_limbs : ℕ
num_limbs = 32

abbrev pub routed_wires_per_op : ℕ
routed_wires_per_op = 6

unfoldable pub new_from_config : CircuitConfig → U32ArithmeticGate
new_from_config config = record {
  num_ops =
      min (config.num_wires / (routed_wires_per_op + num_limbs))
        (config.num_routed_wires / routed_wires_per_op);
}

unfoldable pub wire_ith_multiplicand_0 : ℕ → ℕ
wire_ith_multiplicand_0 i = routed_wires_per_op * i

unfoldable pub wire_ith_multiplicand_1 : ℕ → ℕ
wire_ith_multiplicand_1 i = routed_wires_per_op * i + 1

unfoldable pub wire_ith_addend : ℕ → ℕ
wire_ith_addend i = routed_wires_per_op * i + 2

unfoldable pub wire_ith_output_low_half : ℕ → ℕ
wire_ith_output_low_half i = routed_wires_per_op * i + 3

unfoldable pub wire_ith_output_high_half : ℕ → ℕ
wire_ith_output_high_half i = routed_wires_per_op * i + 4

unfoldable pub wire_ith_inverse : ℕ → ℕ
wire_ith_inverse i = routed_wires_per_op * i + 5

unfoldable pub wire_ith_output_jth_limb : U32ArithmeticGate → ℕ → ℕ → ℕ
wire_ith_output_jth_limb gate i j = routed_wires_per_op * gate.num_ops + num_limbs * i + j

unfoldable pub num_wires : U32ArithmeticGate → ℕ
num_wires gate = gate.num_ops * (routed_wires_per_op + num_limbs)

module _ (f : Field) (gate : U32ArithmeticGate) (local_wires : ℕ → f.F) where
  open f use {F, zero_f, one_f, add, sub, mul, from_canonical}

  -- The constraints of operation `i`.
  unfoldable pub op_constraints : ℕ → List F
  op_constraints i =
      let multiplicand_0 = local_wires (wire_ith_multiplicand_0 i) in
      let multiplicand_1 = local_wires (wire_ith_multiplicand_1 i) in
      let addend = local_wires (wire_ith_addend i) in
      let computed_output = add (mul multiplicand_0 multiplicand_1) addend in
      let output_low = local_wires (wire_ith_output_low_half i) in
      let output_high = local_wires (wire_ith_output_high_half i) in
      let inverse = local_wires (wire_ith_inverse i) in
      let base = from_canonical (2 ^ 32) in
      let u32_max = from_canonical (2 ^ 32 - 1) in
      let diff = sub u32_max output_high in
      let hi_not_max = sub (mul inverse diff) one_f in
      let hi_not_max_or_lo_zero = mul hi_not_max output_low in
      let combined_output = add (mul output_high base) output_low in
      let limb = λ (j : ℕ). local_wires (wire_ith_output_jth_limb gate i j) in
      let (products, combined_low_limbs, combined_high_limbs) =
        limbs_loop f limb (num_limbs / 2) num_limbs zero_f zero_f in
      hi_not_max_or_lo_zero
      ∷ sub combined_output computed_output
      ∷ (products ++ (sub combined_low_limbs output_low ∷ sub combined_high_limbs output_high ∷ []))

  unfoldable pub eval_unfiltered : List F
  unfolding op_constraints
  eval_unfiltered = for_ops gate.num_ops 0 op_constraints

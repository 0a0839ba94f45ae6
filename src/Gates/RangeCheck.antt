-- ===== src/Gates/RangeCheck.antt =====
-- plonky2x/core/src/frontend/uint/num/u32/gates/range_check_u32.rs: that values are below 2 ^ 32.
use succinctx.Prelude.{ℕ, zero, suc, ◌+◌, ◌*◌, ◌≡◌, List, [], ◌∷◌, map}
use succinctx.Gates.Field.{Field, for_ops}
use succinctx.Gates.Limbs.{range_product}
use succinctx.Gates.Circuit.{
  ExtensionTarget, wire, constant_extension, sub_extension, arithmetic_extension, target_value,
}
use succinctx.Gates.AddMany.{collect}

-- plonky2's `reduce_with_powers` and `reduce_with_powers_ext_circuit`: the terms, the lowest first,
-- with the powers of a base.
pub record Reduce (f : Field) : Type 0 where
  pub reduce_with_powers : List f.F → f.F → f.F
  pub reduce_with_powers_ext_circuit : List (ExtensionTarget f) → f.F → ExtensionTarget f
  pub reduce-nil : (base : f.F) → reduce_with_powers [] base ≡ f.zero_f
  pub reduce-cons :
      (x : f.F) (xs : List f.F) (base : f.F)
      → reduce_with_powers (x ∷ xs) base ≡ f.add (f.mul (reduce_with_powers xs base) base) x
  pub reduce-value :
      (w : ℕ → f.F) (ts : List (ExtensionTarget f)) (base : f.F)
      → target_value f w (reduce_with_powers_ext_circuit ts base)
        ≡ reduce_with_powers (map (target_value f w) ts) base

pub record U32RangeCheckGate : Type 0 where
  pub num_input_limbs : ℕ

abbrev pub aux_limbs_per_input_limb : ℕ
aux_limbs_per_input_limb = 16

unfoldable pub wire_ith_input_limb : ℕ → ℕ
wire_ith_input_limb i = i

unfoldable pub wire_ith_input_limb_jth_aux_limb : U32RangeCheckGate → ℕ → ℕ → ℕ
wire_ith_input_limb_jth_aux_limb gate i j = gate.num_input_limbs + aux_limbs_per_input_limb * i + j

unfoldable pub num_wires : U32RangeCheckGate → ℕ
num_wires gate = gate.num_input_limbs * (1 + aux_limbs_per_input_limb)

module _ (f : Field) (r : Reduce f) (gate : U32RangeCheckGate) where
  open f use {F, zero_f, one_f, add, sub, mul, neg, from_canonical}

  -- The constraints of input limb `i`.
  unfoldable pub limb_constraints : (ℕ → F) → ℕ → List F
  limb_constraints local_wires i =
      let input_limb = local_wires (wire_ith_input_limb i) in
      let aux_limbs =
        collect (λ j. local_wires (wire_ith_input_limb_jth_aux_limb gate i j))
          aux_limbs_per_input_limb 0 in
      let computed_sum = r.reduce_with_powers aux_limbs (from_canonical 4) in
      sub computed_sum input_limb ∷ map (range_product f) aux_limbs

  unfoldable pub eval_unfiltered : (ℕ → F) → List F
  unfolding limb_constraints
  eval_unfiltered local_wires = for_ops gate.num_input_limbs 0 (limb_constraints local_wires)

  -- The product of `aux_limb - i` for `left` numbers `i`.
  unfoldable pub acc_loop : ℕ → ℕ → ExtensionTarget f → ExtensionTarget f → ExtensionTarget f
  acc_loop zero i acc aux_limb = acc
  acc_loop (suc left) i acc aux_limb =
      let neg_i = neg (from_canonical i) in
      acc_loop left (i + 1) (arithmetic_extension one_f neg_i acc aux_limb acc) aux_limb

  unfoldable pub limb_constraints_circuit : ℕ → List (ExtensionTarget f)
  unfolding acc_loop
  limb_constraints_circuit i =
      let input_limb = wire (wire_ith_input_limb i) in
      let aux_limbs =
        collect (λ j. wire (wire_ith_input_limb_jth_aux_limb gate i j)) aux_limbs_per_input_limb
          0 in
      let computed_sum = r.reduce_with_powers_ext_circuit aux_limbs (from_canonical 4) in
      sub_extension computed_sum input_limb
      ∷ map (λ aux_limb. acc_loop 4 0 (constant_extension one_f) aux_limb) aux_limbs

  unfoldable pub eval_unfiltered_circuit : List (ExtensionTarget f)
  unfolding limb_constraints_circuit
  eval_unfiltered_circuit = for_ops gate.num_input_limbs 0 limb_constraints_circuit

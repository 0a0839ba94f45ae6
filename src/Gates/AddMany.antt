-- ===== src/Gates/AddMany.antt =====
-- plonky2x/core/src/frontend/uint/num/u32/gates/add_many_u32.rs: the sum of several 32-bit values and
-- a carry.
use succinctx.Prelude.{
  ℕ, zero, suc, ◌+◌, ◌*◌, ◌/◌, ◌^◌, min, ◌≡◌, refl, ap, List, [], ◌∷◌, ◌++◌, map, leb,
  if◌then◌else◌, Outcome, ok, panic,
}
use succinctx.Gates.Field.{Field, for_ops}
use succinctx.Gates.Limbs.{limbs_loop}
use succinctx.Gates.Arithmetic.{CircuitConfig}
use succinctx.Uint.Gadgets.{max_num_addends}
use succinctx.Gates.Circuit.{
  ExtensionTarget, wire, constant_extension, add_extension, sub_extension, mul_add_extension,
  circuit_limbs_loop,
}

pub record U32AddManyGate : Type 0 where
  pub num_addends : ℕ
  pub num_ops : ℕ

abbrev pub num_result_limbs : ℕ
num_result_limbs = 16

abbrev pub num_carry_limbs : ℕ
num_carry_limbs = 3

abbrev pub num_limbs : ℕ
num_limbs = num_result_limbs + num_carry_limbs

unfoldable pub new_from_config : CircuitConfig → ℕ → Outcome U32AddManyGate
new_from_config config num_addends =
    if leb num_addends max_num_addends
    then ok record {
      num_addends = num_addends;
      num_ops =
          min (config.num_wires / (num_addends + 3 + num_limbs))
            (config.num_routed_wires / (num_addends + 3));
    }
    else panic

module _ (gate : U32AddManyGate) where
  unfoldable pub wire_ith_op_jth_addend : ℕ → ℕ → ℕ
  wire_ith_op_jth_addend i j = (gate.num_addends + 3) * i + j

  unfoldable pub wire_ith_carry : ℕ → ℕ
  wire_ith_carry i = (gate.num_addends + 3) * i + gate.num_addends

  unfoldable pub wire_ith_output_result : ℕ → ℕ
  wire_ith_output_result i = (gate.num_addends + 3) * i + gate.num_addends + 1

  unfoldable pub wire_ith_output_carry : ℕ → ℕ
  wire_ith_output_carry i = (gate.num_addends + 3) * i + gate.num_addends + 2

  unfoldable pub wire_ith_output_jth_limb : ℕ → ℕ → ℕ
  wire_ith_output_jth_limb i j = (gate.num_addends + 3) * gate.num_ops + num_limbs * i + j

  unfoldable pub num_wires : ℕ
  num_wires = (gate.num_addends + 3) * gate.num_ops + num_limbs * gate.num_ops

-- The elements for the indices from `j` on, `left` of them.
unfoldable pub collect {ℓ} : {A : Type ℓ} → (ℕ → A) → ℕ → ℕ → List A
collect get zero j = []
collect get (suc left) j = get j ∷ collect get left (j + 1)

pub map-collect {ℓ κ} :
    {A : Type ℓ} {B : Type κ} (g : A → B) (get : ℕ → A) (left j : ℕ)
    → map g (collect get left j) ≡ collect (λ k. g (get k)) left j
unfolding collect
map-collect g get zero j = refl
map-collect g get (suc left) j = ap (λ r. g (get j) ∷ r) (map-collect g get left (j + 1))

module _ (f : Field) (gate : U32AddManyGate) where
  open f use {F, zero_f, add, sub, mul, from_canonical}

  unfoldable pub fold_add : F → List F → F
  fold_add x [] = x
  fold_add x (y ∷ ys) = fold_add (add x y) ys

  -- The constraints of operation `i`.
  unfoldable pub op_constraints : (ℕ → F) → ℕ → List F
  op_constraints local_wires i =
      let addends =
        collect (λ j. local_wires (wire_ith_op_jth_addend gate i j)) gate.num_addends 0 in
      let carry = local_wires (wire_ith_carry gate i) in
      let computed_output = add (fold_add zero_f addends) carry in
      let output_result = local_wires (wire_ith_output_result gate i) in
      let output_carry = local_wires (wire_ith_output_carry gate i) in
      let combined_output = add (mul output_carry (from_canonical (2 ^ 32))) output_result in
      let limb = λ (j : ℕ). local_wires (wire_ith_output_jth_limb gate i j) in
      let (products, combined_result_limbs, combined_carry_limbs) =
        limbs_loop f limb num_result_limbs num_limbs zero_f zero_f in
      sub combined_output computed_output
      ∷ (products
          ++ (sub combined_result_limbs output_result ∷ sub combined_carry_limbs output_carry ∷ []))

  unfoldable pub eval_unfiltered : (ℕ → F) → List F
  unfolding op_constraints
  eval_unfiltered local_wires = for_ops gate.num_ops 0 (op_constraints local_wires)

  -- `computed_output`, from the carry on.
  unfoldable pub circuit_fold_add : ExtensionTarget f → List (ExtensionTarget f) → ExtensionTarget f
  circuit_fold_add computed_output [] = computed_output
  circuit_fold_add computed_output (addend ∷ addends) =
      circuit_fold_add (add_extension computed_output addend) addends

  unfoldable pub op_constraints_circuit : ℕ → List (ExtensionTarget f)
  unfolding circuit_fold_add
  op_constraints_circuit i =
      let addends = collect (λ j. wire (wire_ith_op_jth_addend gate i j)) gate.num_addends 0 in
      let carry = wire (wire_ith_carry gate i) in
      let computed_output = circuit_fold_add carry addends in
      let output_result = wire (wire_ith_output_result gate i) in
      let output_carry = wire (wire_ith_output_carry gate i) in
      let base_target = constant_extension (from_canonical (2 ^ 32)) in
      let combined_output = mul_add_extension output_carry base_target output_result in
      let zero_target = constant_extension zero_f in
      let (products, combined_result_limbs, combined_carry_limbs) =
        circuit_limbs_loop f (wire_ith_output_jth_limb gate i) num_result_limbs num_limbs
          zero_target zero_target in
      sub_extension combined_output computed_output
      ∷ (products
          ++ (sub_extension combined_result_limbs output_result
              ∷ sub_extension combined_carry_limbs output_carry
              ∷ []))

  unfoldable pub eval_unfiltered_circuit : List (ExtensionTarget f)
  unfolding op_constraints_circuit
  eval_unfiltered_circuit = for_ops gate.num_ops 0 op_constraints_circuit

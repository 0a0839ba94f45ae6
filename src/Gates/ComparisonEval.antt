-- ===== src/Gates/ComparisonEval.antt =====
-- The three evaluations of `ComparisonGate` agree.
use mathlib.Core.List.{map-append}
use succinctx.Prelude.{ℕ, zero, suc, ◌+◌, ◌^◌, ◌≡◌, refl, ap, ap₂, ◌∙◌, List, [], ◌∷◌, ◌++◌, map}
use succinctx.Gates.Field.{Field}
use succinctx.Gates.Circuit.{
  ExtensionTarget, wire, constant_extension, add_extension, sub_extension, mul_extension,
  target_value, circuit_product_loop, circuit_product_loop-value,
}
use succinctx.Gates.AddMany.{collect, map-collect}
use succinctx.Gates.RangeCheck.{Reduce}
use succinctx.Gates.Comparison.{
  ComparisonGate, chunk_bits, chunk_loop, eval_unfiltered, wire_first_input, wire_second_input,
  wire_result_bool, wire_most_significant_diff, wire_first_chunk_val, wire_second_chunk_val,
  wire_equality_dummy, wire_chunks_equal, wire_intermediate_value, wire_most_significant_diff_bit,
}

module _ (f : Field) (gate : ComparisonGate) where
  open f use {F, zero_f, one_f, add, sub, mul, from_canonical}

  unfoldable pub circuit_chunk_loop :
      ℕ → ℕ → ℕ → ExtensionTarget f → List (ExtensionTarget f) × ExtensionTarget f
  circuit_chunk_loop chunk_size zero i diff_so_far = ([], diff_so_far)
  circuit_chunk_loop chunk_size (suc left) i diff_so_far =
      let one = constant_extension one_f in
      let first_chunk = wire (wire_first_chunk_val gate i) in
      let second_chunk = wire (wire_second_chunk_val gate i) in
      let first_product = circuit_product_loop f chunk_size 0 one first_chunk in
      let second_product = circuit_product_loop f chunk_size 0 one second_chunk in
      let difference = sub_extension second_chunk first_chunk in
      let equality_dummy = wire (wire_equality_dummy gate i) in
      let chunks_equal = wire (wire_chunks_equal gate i) in
      let diff_times_equal = mul_extension difference equality_dummy in
      let not_equal = sub_extension one chunks_equal in
      let intermediate_value = wire (wire_intermediate_value gate i) in
      let old_diff = mul_extension chunks_equal diff_so_far in
      let new_diff = mul_extension not_equal difference in
      let (constraints, most_significant_diff_so_far) =
        circuit_chunk_loop chunk_size left (i + 1) (add_extension intermediate_value new_diff) in
      (
        first_product
            ∷ second_product
            ∷ sub_extension diff_times_equal not_equal
            ∷ mul_extension chunks_equal difference
            ∷ sub_extension intermediate_value old_diff
            ∷ constraints,
        most_significant_diff_so_far,
      )

  module _ (r : Reduce f) (ceil_div_usize : ℕ → ℕ → ℕ) where
    unfoldable pub eval_unfiltered_circuit : List (ExtensionTarget f)
    unfolding circuit_chunk_loop
    eval_unfiltered_circuit =
        let first_input = wire wire_first_input in
        let second_input = wire wire_second_input in
        let chunk_size = 2 ^ chunk_bits ceil_div_usize gate in
        let first_chunks = collect (λ i. wire (wire_first_chunk_val gate i)) gate.num_chunks 0 in
        let second_chunks = collect (λ i. wire (wire_second_chunk_val gate i)) gate.num_chunks 0 in
        let chunk_base = from_canonical chunk_size in
        let first_chunks_combined = r.reduce_with_powers_ext_circuit first_chunks chunk_base in
        let second_chunks_combined = r.reduce_with_powers_ext_circuit second_chunks chunk_base in
        let (constraints, most_significant_diff_so_far) =
          circuit_chunk_loop chunk_size gate.num_chunks 0 (constant_extension zero_f) in
        let one = constant_extension one_f in
        let most_significant_diff = wire wire_most_significant_diff in
        let diff_bit = λ (i : ℕ). wire (wire_most_significant_diff_bit gate i) in
        let most_significant_diff_bits = collect diff_bit (chunk_bits ceil_div_usize gate + 1) 0 in
        let bits_combined =
          r.reduce_with_powers_ext_circuit most_significant_diff_bits (from_canonical 2) in
        let two_n = constant_extension (from_canonical chunk_size) in
        let sum = add_extension two_n most_significant_diff in
        let result_bool = wire wire_result_bool in
        sub_extension first_chunks_combined first_input
        ∷ sub_extension second_chunks_combined second_input
        ∷ (constraints
            ++ (sub_extension most_significant_diff most_significant_diff_so_far
                ∷ (map (λ this_bit. mul_extension this_bit (sub_extension one this_bit))
                      most_significant_diff_bits
                    ++ (sub_extension sum bits_combined
                        ∷ sub_extension result_bool (diff_bit (chunk_bits ceil_div_usize gate))
                        ∷ []))))

  module _ (w : ℕ → F) where
    circuit_chunk_loop-value :
        (chunk_size left i : ℕ) (diff_so_far : ExtensionTarget f)
        → let out = circuit_chunk_loop chunk_size left i diff_so_far in
          let out' = chunk_loop f gate w chunk_size left i (target_value f w diff_so_far) in
          (map (target_value f w) out.0 ≡ out'.0) × (target_value f w out.1 ≡ out'.1)
    unfolding circuit_chunk_loop chunk_loop target_value
    circuit_chunk_loop-value chunk_size zero i diff_so_far = (refl, refl)
    circuit_chunk_loop-value chunk_size (suc left) i diff_so_far =
        let one : ExtensionTarget f = constant_extension one_f in
        let first_chunk : ExtensionTarget f = wire (wire_first_chunk_val gate i) in
        let second_chunk : ExtensionTarget f = wire (wire_second_chunk_val gate i) in
        let not_equal : ExtensionTarget f = sub_extension one (wire (wire_chunks_equal gate i)) in
        let new_diff = mul_extension not_equal (sub_extension second_chunk first_chunk) in
        let rest =
          circuit_chunk_loop-value chunk_size left (i + 1)
            (add_extension (wire (wire_intermediate_value gate i)) new_diff) in
        let difference = sub (w (wire_second_chunk_val gate i)) (w (wire_first_chunk_val gate i)) in
        let equal = w (wire_chunks_equal gate i) in
        (
          ap₂ (λ x xs. x ∷ xs) (circuit_product_loop-value f w chunk_size 0 one first_chunk)
              (ap₂
                (λ x xs.
                  x
                  ∷ sub (mul difference (w (wire_equality_dummy gate i))) (sub one_f equal)
                  ∷ mul equal difference
                  ∷ sub (w (wire_intermediate_value gate i))
                      (mul equal (target_value f w diff_so_far))
                  ∷ xs)
                (circuit_product_loop-value f w chunk_size 0 one second_chunk) rest.0),
          rest.1,
        )

    bits-value :
        (ts : List (ExtensionTarget f))
        → map
            (target_value f w)
            (map (λ t. mul_extension t (sub_extension (constant_extension one_f) t)) ts)
          ≡ map (λ b. mul b (sub one_f b)) (map (target_value f w) ts)
    unfolding target_value
    bits-value [] = refl
    bits-value (t ∷ ts) =
        ap (λ xs. mul (target_value f w t) (sub one_f (target_value f w t)) ∷ xs) (bits-value ts)

    module _ (r : Reduce f) (ceil_div_usize : ℕ → ℕ → ℕ) where
      reduce-collect :
          (at_wire : ℕ → ℕ) (left j : ℕ) (base : F)
          → target_value f w
              (r.reduce_with_powers_ext_circuit (collect (λ k. wire (at_wire k)) left j) base)
            ≡ r.reduce_with_powers (collect (λ k. w (at_wire k)) left j) base
      unfolding target_value
      reduce-collect at_wire left j base =
          r.reduce-value w (collect (λ k. wire (at_wire k)) left j) base
          ∙ ap (λ xs. r.reduce_with_powers xs base)
              (map-collect (target_value f w) (λ k. wire (at_wire k)) left j)

      -- The targets of the circuit have the values of the constraints, in the same order.
      pub eval_unfiltered_circuit-value :
          map (target_value f w) (eval_unfiltered_circuit r ceil_div_usize)
          ≡ eval_unfiltered f gate w r ceil_div_usize
      unfolding eval_unfiltered_circuit eval_unfiltered target_value
      eval_unfiltered_circuit-value =
          let bits = chunk_bits ceil_div_usize gate in
          let size = 2 ^ bits in
          let bit = λ (i : ℕ). wire_most_significant_diff_bit gate i in
          let out = circuit_chunk_loop size gate.num_chunks 0 (constant_extension zero_f) in
          let (e, e') =
            circuit_chunk_loop-value size gate.num_chunks 0 (constant_extension zero_f) in
          let ends =
            map-append (target_value f w)
              (map (λ t. mul_extension t (sub_extension (constant_extension one_f) t))
                (collect (λ k. wire (bit k)) (bits + 1) 0))
              (sub_extension
                  (add_extension (constant_extension (from_canonical size))
                    (wire wire_most_significant_diff))
                  (r.reduce_with_powers_ext_circuit (collect (λ k. wire (bit k)) (bits + 1) 0)
                    (from_canonical 2))
                ∷ sub_extension (wire wire_result_bool) (wire (bit bits))
                ∷ [])
            ∙ ap₂
                (λ xs x.
                  xs
                  ++ (sub (add (from_canonical size) (w wire_most_significant_diff)) x
                      ∷ sub (w wire_result_bool) (w (bit bits))
                      ∷ []))
                (bits-value (collect (λ k. wire (bit k)) (bits + 1) 0)
                  ∙ ap (map (λ b. mul b (sub one_f b)))
                      (map-collect (target_value f w) (λ k. wire (bit k)) (bits + 1) 0))
                (reduce-collect bit (bits + 1) 0 (from_canonical 2)) in
          ap₂ (λ x xs. sub x (w wire_first_input) ∷ xs)
            (reduce-collect (wire_first_chunk_val gate) gate.num_chunks 0 (from_canonical size))
            (ap₂ (λ x xs. sub x (w wire_second_input) ∷ xs)
              (reduce-collect (wire_second_chunk_val gate) gate.num_chunks 0 (from_canonical size))
              (map-append (target_value f w) out.0 _
                ∙ ap₂ (λ xs ys. xs ++ ys) e
                    (ap₂ (λ x xs. sub (w wire_most_significant_diff) x ∷ xs) e' ends)))

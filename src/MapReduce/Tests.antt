-- ===== src/MapReduce/Tests.antt =====
-- A small proof system, sound for the circuits of MapReduce/Circuits.antt, and the theorems of
-- MapReduce at it.
use native.Mathlib.Decide.{ℕ_discrete}
use succinctx.Prelude.{
  ℕ, ◌+◌, ◌*◌, ◌^◌, ◌≡◌, refl, ap₂, ◌↔◌, ◌⊎◌, inl, inr, Bool, true, false, ◌&&◌, List, [], ◌∷◌,
  ◌++◌, arith, ◌==◌, ==_refl, ==_iff, Bool-cases, length, Outcome, ok, panic,
}
use succinctx.Vars.Collections.{variable, variable-IsLawful, array_elements}
use succinctx.MapReduce.Commitment.{
  chunk_loop, mapreduce_merkle_tree_root, is_power_of_two, log2_ceil,
}
use succinctx.MapReduce.Circuits.{
  MapReduceOutput, CircuitBuild, map_circuit, reduce_circuit, MapReduce, build_map, build_reduce,
  mapreduce,
}
use succinctx.MapReduce.Binding.{Collision}
use succinctx.MapReduce.Groups.{IsGroup}
use succinctx.MapReduce.Sound.{IsLawfulProgram, IsSound, map_reduce}
use succinctx.MapReduce.Accept.{mapreduce_sound, mapreduce_single}

-- The sum of a list, and three elements that say less.
abbrev pub sum : List ℕ → ℕ
sum [] = 0
sum (x ∷ xs) = x + 3 * sum xs

abbrev pub toy_hash : List ℕ → List ℕ
toy_hash xs = sum xs ∷ 0 ∷ 0 ∷ length xs ∷ []

numbers-discrete : Discrete (List ℕ)
numbers-discrete = hlevel ℕ_discrete

abbrev pub list_equal : List ℕ → List ℕ → Bool
list_equal [] [] = true
list_equal [] (y ∷ ys) = false
list_equal (x ∷ xs) [] = false
list_equal (x ∷ xs) (y ∷ ys) = x == y && list_equal xs ys

list_equal-true : (xs ys : List ℕ) → list_equal xs ys ≡ true → xs ≡ ys
list_equal-true [] [] e = refl
list_equal-true [] (y ∷ ys) e = cc e
list_equal-true (x ∷ xs) [] e = cc e
list_equal-true (x ∷ xs) (y ∷ ys) e = elim (Bool-cases (x == y)) [
  | inl p ↦ ap₂ (λ z zs. z ∷ zs) ((==_iff x y).0 p) (list_equal-true xs ys (rw p at e))
  | inr p ↦ absurd (cc (rw p at e))
]

list_equal_refl : (xs : List ℕ) → list_equal xs xs ≡ true
list_equal_refl [] = refl
list_equal_refl (x ∷ xs) = rw (==_refl x) (list_equal_refl xs)

pub list_equal_iff : (xs ys : List ℕ) → (list_equal xs ys ≡ true) ↔ (xs ≡ ys)
list_equal_iff xs ys = (list_equal-true xs ys, λ e. rw e (list_equal_refl ys))

-- Groups of two numbers: their sum, over the context.
abbrev pub sum_map : ℕ → List ℕ → Outcome ℕ
sum_map ctx [] = ok ctx
sum_map ctx (x ∷ xs) = ok (ctx + x + sum xs)

abbrev pub sum_program : MapReduce ℕ
sum_program = record {
  Ctx = ℕ;
  Output = ℕ;
  input = variable;
  batch = 2;
  ctx_equal = λ a b. a == b;
  hash_equal = list_equal;
  map_fn = sum_map;
  reduce_fn = λ ctx left right. ok (left + right);
}

abbrev pub sum_lawful : IsLawfulProgram sum_program
sum_lawful = record {
  input_lawful = variable-IsLawful;
  ctx_equal_iff = ==_iff;
  hash_equal_iff = list_equal_iff;
}

-- The proofs for two groups of two numbers in the context 8.
data ToyProof : Type 0 where
  left_proof right_proof root_proof : ToyProof

abbrev toy_values : ToyProof → MapReduceOutput ℕ ℕ ℕ
toy_values left_proof = record { ctx = 8; output = 11; acc = toy_hash (1 ∷ 2 ∷ []) }
toy_values right_proof = record { ctx = 8; output = 15; acc = toy_hash (3 ∷ 4 ∷ []) }
toy_values root_proof = record {
  ctx = 8;
  output = 26;
  acc = toy_hash (toy_hash (1 ∷ 2 ∷ []) ++ toy_hash (3 ∷ 4 ∷ []));
}

abbrev toy_verify : CircuitBuild → ToyProof → Bool
toy_verify map_circuit left_proof = true
toy_verify map_circuit right_proof = true
toy_verify map_circuit root_proof = false
toy_verify (reduce_circuit map_circuit) left_proof = false
toy_verify (reduce_circuit map_circuit) right_proof = false
toy_verify (reduce_circuit map_circuit) root_proof = true
toy_verify (reduce_circuit (reduce_circuit c)) proof = false

toy_map :
    (proof : ToyProof)
    → toy_verify map_circuit proof ≡ true
    → (ctx : ℕ) × (inputs : List ℕ) × IsGroup variable-IsLawful.IsValue 2 inputs
      × (build_map toy_hash sum_program ctx inputs ≡ ok (toy_values proof))
unfolding build_map array_elements
toy_map left_proof v = (8, 1 ∷ 2 ∷ [], (refl, (tt, (tt, tt))), refl)
toy_map right_proof v = (8, 3 ∷ 4 ∷ [], (refl, (tt, (tt, tt))), refl)
toy_map root_proof v = absurd (cc v)

toy_reduce :
    (child : CircuitBuild) (proof : ToyProof)
    → toy_verify (reduce_circuit child) proof ≡ true
    → (left : ToyProof) × (right : ToyProof) × (build_reduce toy_hash sum_program ToyProof
          toy_verify toy_values child left right
        ≡ ok (toy_values proof))
unfolding build_reduce
toy_reduce map_circuit left_proof v = absurd (cc v)
toy_reduce map_circuit right_proof v = absurd (cc v)
toy_reduce map_circuit root_proof v = (left_proof, right_proof, refl)
toy_reduce (reduce_circuit child) proof v = absurd (cc v)

toy-IsSound : IsSound toy_hash sum_program sum_lawful ToyProof toy_verify toy_values
toy-IsSound = (toy_map, toy_reduce)

mapreduce_runs :
    mapreduce toy_hash sum_program ToyProof toy_verify toy_values 8 (1 ∷ 2 ∷ 3 ∷ 4 ∷ []) root_proof
    ≡ ok 26
unfolding mapreduce mapreduce_merkle_tree_root is_power_of_two log2_ceil array_elements
mapreduce_runs = refl

mapreduce_sound_example :
    ((d : ℕ) × (length (chunk_loop {A = ℕ} 2 2 0 (1 ∷ 2 ∷ 3 ∷ 4 ∷ [])) ≡ 2 ^ d)
      × (map_reduce toy_hash sum_program 8 d (chunk_loop {A = ℕ} 2 2 0 (1 ∷ 2 ∷ 3 ∷ 4 ∷ []))
          ≡ ok 26))
    ⊎ Collision toy_hash
mapreduce_sound_example =
    mapreduce_sound toy_hash sum_program sum_lawful ToyProof toy_verify toy_values toy-IsSound
      numbers-discrete (λ xs. refl) 8 (1 ∷ 2 ∷ 3 ∷ 4 ∷ []) root_proof 26 (tt, (tt, (tt, (tt, tt))))
      mapreduce_runs

mapreduce_single_example :
    mapreduce toy_hash sum_program ToyProof toy_verify toy_values 8 (1 ∷ 2 ∷ []) left_proof ≡ panic
mapreduce_single_example =
    mapreduce_single toy_hash sum_program sum_lawful ToyProof toy_verify toy_values 8 (1 ∷ 2 ∷ [])
      left_proof (omega arith) refl

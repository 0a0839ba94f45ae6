-- ===== src/MapReduce/GeneratorTests.antt =====
-- A prover that proves what holds, and the generator of MapReduce/Generator.antt with it.
use succinctx.Prelude.{
  ℕ, ◌≡◌, refl, ap, Bool, true, false, List, [], ◌∷◌, map, arith, Outcome, ok, panic, ◌>>=◌,
}
use succinctx.Vars.Layout.{All}
use succinctx.MapReduce.Commitment.{chunk_loop}
use succinctx.MapReduce.Layers.{tree}
use succinctx.MapReduce.Circuits.{
  MapReduceOutput, CircuitBuild, map_circuit, reduce_circuit, build_map, build_reduce, mapreduce,
}
use succinctx.MapReduce.Sound.{map_all, map_reduce}
use succinctx.MapReduce.Generator.{Prover, run_once}
use succinctx.MapReduce.Complete.{Verifies}
use succinctx.MapReduce.Loop.{Proves, layers, mapreduce-run_once}
use succinctx.MapReduce.Tests.{toy_hash, sum_program, sum_lawful}

-- A circuit and what it has made.
data Statement : Type 0 where
  states : CircuitBuild → MapReduceOutput ℕ ℕ ℕ → Statement

abbrev circuit_equal : CircuitBuild → CircuitBuild → Bool
circuit_equal map_circuit map_circuit = true
circuit_equal map_circuit (reduce_circuit d) = false
circuit_equal (reduce_circuit c) map_circuit = false
circuit_equal (reduce_circuit c) (reduce_circuit d) = circuit_equal c d

circuit_equal_refl : (c : CircuitBuild) → circuit_equal c c ≡ true
circuit_equal_refl map_circuit = refl
circuit_equal_refl (reduce_circuit c) = circuit_equal_refl c

abbrev states_of : CircuitBuild → Statement → Bool
states_of circuit (states c o) = circuit_equal circuit c

abbrev stated : Statement → MapReduceOutput ℕ ℕ ℕ
stated (states c o) = o

abbrev state_maps : List (ℕ × List ℕ) → Outcome (List Statement)
state_maps inputs =
    map_all (λ (p : ℕ × List ℕ). build_map toy_hash sum_program p.0 p.1) inputs >>= λ outs.
    ok (map (states map_circuit) outs)

abbrev state_reduces : CircuitBuild → List (Statement × Statement) → Outcome (List Statement)
state_reduces map_circuit inputs = panic
state_reduces (reduce_circuit child) inputs =
    map_all
      (λ (p : Statement × Statement).
        build_reduce toy_hash sum_program Statement states_of stated child p.0 p.1)
      inputs
    >>= λ outs. ok (map (states (reduce_circuit child)) outs)

abbrev stating : Prover sum_program Statement
stating = record { prove_maps = state_maps; prove_reduces = state_reduces }

states_verify :
    (c : CircuitBuild) (outs : List (MapReduceOutput ℕ ℕ ℕ))
    → All
        (Verifies toy_hash sum_program sum_lawful Statement states_of stated c)
        (map (states c) outs)
      × (map stated (map (states c) outs) ≡ outs)
states_verify c [] = (tt, refl)
states_verify c (o ∷ outs) =
    let rest = states_verify c outs in ((circuit_equal_refl c, rest.0), ap (λ l. o ∷ l) rest.1)

stating-Proves : Proves toy_hash sum_program sum_lawful Statement states_of stated stating
stating-Proves = (
  λ inputs outs e. (map (states map_circuit) outs, rw e refl, states_verify map_circuit outs),
  λ child inputs outs e. (
    map (states (reduce_circuit child)) outs,
    rw e refl,
    states_verify (reduce_circuit child) outs,
  ),
)

sums_reduce :
    map_reduce toy_hash sum_program 8 1 (chunk_loop {A = ℕ} 2 2 0 (1 ∷ 2 ∷ 3 ∷ 4 ∷ [])) ≡ ok 26
unfolding map_reduce chunk_loop tree
sums_reduce = refl

mapreduce-run_once_example :
    (proof : Statement) × (run_once sum_program Statement stating 8
        (1 ∷ 2 ∷ 3 ∷ 4 ∷ [])
        (layers toy_hash sum_program sum_lawful Statement states_of stated stating 1 0)
      ≡ ok proof)
    × (mapreduce toy_hash sum_program Statement states_of stated 8 (1 ∷ 2 ∷ 3 ∷ 4 ∷ []) proof
        ≡ ok 26)
mapreduce-run_once_example =
    mapreduce-run_once toy_hash sum_program sum_lawful Statement states_of stated stating
      stating-Proves 0 8 (1 ∷ 2 ∷ 3 ∷ 4 ∷ []) 26 (omega arith) (omega arith) refl refl sums_reduce

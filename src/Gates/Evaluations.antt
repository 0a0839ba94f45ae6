-- ===== src/Gates/Evaluations.antt =====
-- The evaluations of all gates agree.
use succinctx.Prelude.{ℕ, ◌≡◌, map}
use succinctx.Gates.Field.{Field}
use succinctx.Gates.Circuit.{target_value}
use succinctx.Gates.RangeCheck.{Reduce}
use succinctx.Gates.Arithmetic as Arithmetic
use succinctx.Gates.ArithmeticEval as ArithmeticEval
use succinctx.Gates.AddMany as AddMany
use succinctx.Gates.AddManyEval as AddManyEval
use succinctx.Gates.Subtraction as Subtraction
use succinctx.Gates.SubtractionEval as SubtractionEval
use succinctx.Gates.RangeCheck as RangeCheck
use succinctx.Gates.RangeCheckEval as RangeCheckEval
use succinctx.Gates.Comparison as Comparison
use succinctx.Gates.ComparisonEval as ComparisonEval
use succinctx.Gates.ComparisonPacked as ComparisonPacked

module _ (f : Field) (r : Reduce f) (ceil_div_usize : ℕ → ℕ → ℕ) (w : ℕ → f.F) where
  -- For each of the five gates, on all wires: the targets of the circuit have the values of the
  -- constraints that the native evaluation gives, in the same order, although the circuits write the
  -- sums and products in other orders.
  pub circuits-value :
      (arithmetic : Arithmetic.U32ArithmeticGate) (add_many : AddMany.U32AddManyGate)
      (subtraction : Subtraction.U32SubtractionGate) (range_check : RangeCheck.U32RangeCheckGate)
      (comparison : Comparison.ComparisonGate)
      → (map (target_value f w) (ArithmeticEval.eval_unfiltered_circuit f arithmetic)
          ≡ Arithmetic.eval_unfiltered f arithmetic w)
        × (map (target_value f w) (AddMany.eval_unfiltered_circuit f add_many)
            ≡ AddMany.eval_unfiltered f add_many w)
        × (map (target_value f w) (Subtraction.eval_unfiltered_circuit f subtraction)
            ≡ Subtraction.eval_unfiltered f subtraction w)
        × (map (target_value f w) (RangeCheck.eval_unfiltered_circuit f r range_check)
            ≡ RangeCheck.eval_unfiltered f r range_check w)
        × (map
              (target_value f w)
              (ComparisonEval.eval_unfiltered_circuit f comparison r ceil_div_usize)
            ≡ Comparison.eval_unfiltered f comparison w r ceil_div_usize)
  circuits-value arithmetic add_many subtraction range_check comparison = (
    (ArithmeticEval.eval_unfiltered_circuit-value f arithmetic w).0,
    AddManyEval.eval_unfiltered_circuit-value f add_many w,
    (SubtractionEval.eval_unfiltered_circuit-value f subtraction w).0,
    RangeCheckEval.eval_unfiltered_circuit-value f r range_check w,
    ComparisonEval.eval_unfiltered_circuit-value f comparison w r ceil_div_usize,
  )

  -- The packed evaluations of the three gates that have one give the same constraints in the same
  -- order.
  pub eval_unfiltered_base_packed-eval_unfiltered :
      (arithmetic : Arithmetic.U32ArithmeticGate) (subtraction : Subtraction.U32SubtractionGate)
      (comparison : Comparison.ComparisonGate)
      → (ArithmeticEval.eval_unfiltered_base_packed f arithmetic w
          ≡ Arithmetic.eval_unfiltered f arithmetic w)
        × (Subtraction.eval_unfiltered_base_packed f subtraction w
            ≡ Subtraction.eval_unfiltered f subtraction w)
        × (ComparisonPacked.eval_unfiltered_base_packed f comparison w r ceil_div_usize
            ≡ Comparison.eval_unfiltered f comparison w r ceil_div_usize)
  eval_unfiltered_base_packed-eval_unfiltered arithmetic subtraction comparison = (
    (ArithmeticEval.eval_unfiltered_circuit-value f arithmetic w).1,
    (SubtractionEval.eval_unfiltered_circuit-value f subtraction w).1,
    ComparisonPacked.eval_unfiltered_base_packed_lem f comparison w r ceil_div_usize,
  )

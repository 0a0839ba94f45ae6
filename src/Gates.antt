-- ===== src/Gates.antt =====
-- plonky2x/core/src/frontend/uint/num/u32/gates: the constraints of the gates over a field, and the
-- generators that find values for them.
pub mod Field
pub mod Limbs
pub mod LimbsSound
pub mod Arithmetic
pub mod ArithmeticSound
pub mod Circuit
pub mod Packed
pub mod ArithmeticEval
pub mod AddMany
pub mod AddManySound
pub mod AddManyEval
pub mod Subtraction
pub mod SubtractionSound
pub mod SubtractionEval
pub mod RangeCheck
pub mod RangeCheckSound
pub mod RangeCheckEval
pub mod Generator
pub mod RangeCheckGenerator
pub mod SubtractionGenerator
pub mod AddManyGenerator
pub mod ArithmeticGenerator
pub mod Comparison
pub mod ComparisonChunks
pub mod ComparisonSound
pub mod ComparisonEval
pub mod ComparisonPacked
pub mod Evaluations
pub mod Wires
pub mod Integers
pub mod Examples
pub mod Tests
pub mod GeneratorTests

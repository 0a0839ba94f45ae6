-- ===== src/Io.antt =====
-- plonky2x/core/src/frontend/builder/io.rs: the inputs and outputs that a circuit declares, and
-- backend/circuit/input.rs and output.rs: the public inputs of a proof as these.
pub mod Schema
pub mod Steps
pub mod Invariant
pub mod Public
pub mod PublicValues
pub mod Tests

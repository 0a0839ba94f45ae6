-- ===== src/Fold.antt =====
-- plonky2x/core/src/frontend/fold: a fold over a list of elements, each step a proof that verifies
-- the proof of the step before.
pub mod Forged
pub mod Generator
pub mod Complete
pub mod Inner
pub mod Sound
pub mod Steps
mod Tests

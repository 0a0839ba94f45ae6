-- ===== src/MapReduce.antt =====
-- plonky2x/core/src/frontend/mapreduce and plonky2x/core/src/utils/poseidon: a map over chunks of
-- inputs and a reduction in pairs, each call a proof of its own.
pub mod Commitment
pub mod Circuits
pub mod Generator
pub mod Complete
pub mod Groups
pub mod Layers
pub mod Loop
pub mod Powers
pub mod Accept
pub mod Sound
pub mod Binding
mod GeneratorTests
mod Tests

-- ===== src/Merkle.antt =====
-- plonky2x/core/src/frontend/merkle: the Merkle roots that circuits compute.
pub mod Log2
pub mod Tendermint
pub mod Split
pub mod Root
pub mod Simple
pub mod Proof
mod Tests

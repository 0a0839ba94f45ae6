-- ===== src/Sha.antt =====
-- plonky2x/core/src/frontend/hash/sha.
pub mod Pad
pub mod Padding
pub mod Variable
pub mod Accept
mod Tests

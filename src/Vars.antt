-- ===== src/Vars.antt =====
-- plonky2x/core/src/frontend/vars.
pub mod Byte
pub mod ByteLayout
pub mod Circuit
pub mod Collections
pub mod Extractor
pub mod Layout
pub mod Select
pub mod Shift
pub mod Streams
pub mod Subarray
pub mod SubarrayCheck
pub mod SubarraySound
pub mod Tuple
mod Tests

-- ===== src/Uint.antt =====
-- plonky2x/core/src/frontend/uint: integers as limbs of 32 bits.
pub mod Gadgets
pub mod BigUint
pub mod Value
pub mod Add
pub mod Sub
pub mod Mul
pub mod Product
pub mod Compare
pub mod Connect
pub mod DivRem
pub mod Generator
pub mod UintN
pub mod Wrap
pub mod Order
pub mod DivN
pub mod Single
pub mod Evm
mod Tests

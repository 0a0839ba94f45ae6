-- ===== src/Rlp.antt =====
-- plonky2x/core/src/frontend/eth/rlp: the RLP decoder and the fixed-size view of trie nodes.
pub mod Decoder
pub mod Encoding
pub mod Totality
pub mod RoundTrip
pub mod Fixed
pub mod Polynomial
pub mod Verify
pub mod Padded
mod Tests

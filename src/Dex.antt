-- ===== src/Dex.antt =====
-- internal/dex: the decoding of pool events, and the metadata that it reads from the chain.
pub mod Abi
pub mod Values
pub mod Library
pub mod TokenMeta
pub mod Events
pub mod Cache
pub mod PoolMeta
pub mod Decoder
pub mod Sample
mod Tests

-- ===== src/Commands.antt =====
-- cmd/indexer: what the commands do with their input, from the reading of the configuration on.
pub mod Services
pub mod Run
pub mod Aggregate
pub mod Writer
pub mod Decode
mod Tests

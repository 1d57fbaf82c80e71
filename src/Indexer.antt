-- ===== src/Indexer.antt =====
-- internal/indexer: the pull of raw logs, block range by block range.
pub mod Range
pub mod Retry
pub mod Checkpoint
pub mod Parse
pub mod Runner
mod Tests

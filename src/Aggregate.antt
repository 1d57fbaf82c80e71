-- ===== src/Aggregate.antt =====
-- internal/aggregate: typed events into metrics for each pool and window of time.
pub mod Window
pub mod Accumulator
pub mod Format
pub mod State
pub mod Session
pub mod Tokens
pub mod Flush
pub mod Run
mod Tests

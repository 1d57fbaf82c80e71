-- ===== src/Storage.antt =====
-- internal/storage: where the stages write. The file system and the database are state; whether a
-- request to them fails is a parameter.
pub mod Files
pub mod Postgres
pub mod Jsonl
mod Tests

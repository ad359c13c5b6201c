-- ===== src/Jobs.antt =====
-- Durable background jobs: src/jobs.
pub mod Model
pub mod Backoff
pub mod Repository
pub mod Runner

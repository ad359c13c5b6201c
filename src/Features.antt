-- ===== src/Features.antt =====
-- Feature flags: src/features.
pub mod Model
pub mod Repository
pub mod Evaluate
pub mod Service
pub mod Handlers

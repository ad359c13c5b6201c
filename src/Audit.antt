-- ===== src/Audit.antt =====
-- The audit trail: src/audit.
pub mod Model
pub mod Security
pub mod Worker

-- ===== src/Outbox.antt =====
-- The transactional outbox: src/outbox.
pub mod Model
pub mod Repository
pub mod Relayer

-- ===== src/Tenants.antt =====
-- Organisations, roles and memberships: src/tenants.
pub mod Repository
pub mod Services

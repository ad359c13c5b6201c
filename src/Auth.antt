-- ===== src/Auth.antt =====
-- Authentication and permissions: src/auth.
pub mod Jwt
pub mod Permissions
pub mod Extractors
pub mod Middleware
pub mod Tests

-- ===== src/Security.antt =====
-- Users, credentials and tokens: src/security.
pub mod Tests
pub mod ApiKeySecret
pub mod Model
pub mod Tokens
pub mod Users
pub mod PasswordHash
pub mod State
pub mod Login
pub mod Passwords
pub mod ServiceAccounts
pub mod ApiKeys
pub mod Accounts
pub mod Keys
pub mod Listing
pub mod Handlers

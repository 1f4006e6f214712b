-- ===== src/Accounts.antt =====
-- Accounts: apps/api/src/modules/auth and apps/api/src/modules/account.
pub mod Schema
pub mod Tokens
pub mod Login
pub mod Passwords
pub mod Emails
pub mod Otps
pub mod Oauth
pub mod Deletion
mod Tests

-- ===== src/Admin.antt =====
-- src/admin: the service of the administrators.
pub mod Tables
pub mod Accounts
pub mod Deletion
pub mod Standing
pub mod Calls
pub mod Export
pub mod Totp

-- ===== src/Security.antt =====
-- The guards and the encryption of src/security.
pub mod Ipv6
pub mod IpAllowlist
pub mod Encryption
pub mod Columns

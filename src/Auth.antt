-- ===== src/Auth.antt =====
-- modules/auth: sessions of sellers, and their second factor.
pub mod Tokens
pub mod Sessions
pub mod TwoFactor
pub mod BackupCodes

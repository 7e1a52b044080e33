-- ===== src/Backup.antt =====
-- The encrypted-backup core, crates/kchat-backup.
pub mod Error
pub mod Limits
pub mod Crypto
pub mod Key
pub mod Context
pub mod Descriptor
pub mod Exec
pub mod Object

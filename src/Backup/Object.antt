-- ===== src/Backup/Object.antt =====
-- The encrypted objects of a backup, crates/kchat-backup/src/object.
pub mod Envelope
pub mod Io
pub mod Stream
pub mod Frames
pub mod Writer
pub mod Reader
pub mod Compression

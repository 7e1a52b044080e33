-- ===== src/Backup/Error.antt =====
-- crates/kchat-backup/src/error.rs. `BackupError` has one field, its code, so a fallible function
-- of the crate returns a `Result BackupErrorCode`.
use kchat_rust_sdk.Base.{Result}

pub data BackupErrorCode : Type 0 where
  invalid_argument empty_password invalid_mnemonic invalid_mnemonic_key : BackupErrorCode
  invalid_password_key unsupported_format context_mismatch io_error : BackupErrorCode
  invalid_state authentication_failed resource_limit_exceeded cancelled : BackupErrorCode
  integrity_mismatch malformed_object invalid_compressed_data : BackupErrorCode

abbrev pub Fallible {ℓ} : Type ℓ → Type ℓ
Fallible A = Result BackupErrorCode A

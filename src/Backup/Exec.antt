-- ===== src/Backup/Exec.antt =====
-- Methods of crates/kchat-backup that change an object and may fail.
use kchat_rust_sdk.Base.Exec.{Stateful}
pub use kchat_rust_sdk.Base.Exec.{pure, raise, lift, gets, modify, continue, ◌>>=◌, ◌>>◌}
use kchat_rust_sdk.Backup.Error.{BackupErrorCode}

abbrev pub Exec {ℓ} : Type 0 → Type ℓ → Type ℓ
Exec S A = Stateful BackupErrorCode S A

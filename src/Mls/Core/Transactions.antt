-- ===== src/Mls/Core/Transactions.antt =====
-- Transactions are atomic.
use kchat_rust_sdk.Base.{◌≡◌, err, arith}
use kchat_rust_sdk.Mls.Error.{Text, Error}
use kchat_rust_sdk.Mls.OpenMls.{OpenMls}
use kchat_rust_sdk.Mls.Core.{GroupExec, transaction, change_group}

module _ (mls : OpenMls) where
  open mls use {Group, Store}

  -- A change of a group that fails, wherever it fails, leaves the store as it was: the
  -- transaction is rolled back.
  pub change_group_atomic :
      (act : GroupExec mls (Unit {0})) (group_id : Text) (s : Store) (e : Error)
      → (change_group mls act group_id s).0 ≡ err e
      → (change_group mls act group_id s).1 ≡ s
  unfolding change_group transaction
  change_group_atomic act group_id s e h = ground arith

-- ===== src/Mls/Membership/Operations.antt =====
-- The operations of crates/uq-openmls/src/core.rs that change who is in a group.
use kchat_rust_sdk.Base.{List, Bytes}
use kchat_rust_sdk.Base.Exec.{Stateful, pure, lift, gets, with_error, ◌>>=◌}
use kchat_rust_sdk.Mls.Error.{Error, re_add}
use kchat_rust_sdk.Mls.OpenMls.{OpenMls}
use kchat_rust_sdk.Mls.Core.{GroupExec}
use kchat_rust_sdk.Mls.Membership.{
  Membership, AddMembersResult, CommitResult, ReAddResult, check_admission, serialize_option,
  serialize_group_info, indices_of, partition_without, all_key_packages,
}

module _ (mls : OpenMls) (ops : Membership mls) where
  open mls use {Group, Store}

  abbrev pub Exec : Type 0 → Type 0
  Exec A = Stateful Error (Group × Store) A

  abbrev pub on_group : {A : Type 0} → GroupExec mls A → Exec A
  on_group f (g, s) = let (r, g', s') = f g s in (r, (g', s'))

  unfoldable pub add_members : ops.Signer → List Bytes → Exec AddMembersResult
  add_members signer key_package_ins = do
    (g, _) ← gets (λ both. both)
    key_packages ← lift (check_admission mls ops g key_package_ins)
    (commit, welcome, info) ← on_group (ops.add_members signer key_packages)
    group_info ← lift (serialize_option mls ops info)
    welcome_bytes ← lift (ops.serialize welcome)
    commit_bytes ← lift (ops.serialize commit)
    (after, _) ← gets (λ both. both)
    pure (record {
      welcome = welcome_bytes;
      commit = commit_bytes;
      group_info = group_info;
      current_epoch = mls.epoch after;
      pre_tree_hash = mls.tree_hash g;
    })

  unfoldable pub remove_members : ops.Signer → List Bytes → Exec CommitResult
  remove_members signer member_ids = do
    (g, _) ← gets (λ both. both)
    (commit, info) ← on_group (ops.remove_members signer (indices_of mls ops g member_ids))
    group_info ← lift (serialize_option mls ops info)
    commit_bytes ← lift (ops.serialize commit)
    (after, _) ← gets (λ both. both)
    pure (record {
      commit = commit_bytes;
      group_info = group_info;
      current_epoch = mls.epoch after;
      pre_tree_hash = mls.tree_hash g;
    })

  unfoldable pub leave_group : ops.Signer → Exec Bytes
  leave_group signer = do
    proposal ← on_group (ops.leave_group signer)
    lift (ops.serialize proposal)

  unfoldable pub update_leaf_node : ops.Signer → Exec CommitResult
  update_leaf_node signer = do
    (g, _) ← gets (λ both. both)
    (commit, info) ← on_group (ops.self_update signer)
    commit_bytes ← lift (ops.serialize commit)
    group_info ← lift (serialize_option mls ops info)
    (after, _) ← gets (λ both. both)
    pure (record {
      commit = commit_bytes;
      group_info = group_info;
      current_epoch = mls.epoch after;
      pre_tree_hash = mls.tree_hash g;
    })

  unfoldable pub readd : ops.Signer → List Bytes → List Bytes → Exec ReAddResult
  readd signer member_ids key_package_ins = do
    (g, _) ← gets (λ both. both)
    let our_partition = partition_without mls ops (indices_of mls ops g member_ids) (ops.members g)
    builder ← lift (with_error re_add (ops.recover_fork_by_readding g our_partition))
    key_packages ← lift (all_key_packages mls ops key_package_ins)
    (commit, welcome, info) ← on_group (ops.stage_readd builder key_packages signer)
    welcome_bytes ← lift (serialize_option mls ops welcome)
    group_info ← lift (serialize_group_info mls ops info)
    commit_bytes ← lift (ops.serialize commit)
    (after, _) ← gets (λ both. both)
    pure (record {
      welcome = welcome_bytes;
      commit = commit_bytes;
      group_info = group_info;
      current_epoch = mls.epoch after;
      pre_tree_hash = mls.tree_hash g;
    })

-- ===== src/Examples/Members.antt =====
-- OpenMLS in small for the changes of a group's members, and what is proved of them applied to it.
use kchat_rust_sdk.Base.{
  ℕ, ◌+◌, ◌≡◌, refl, none, some, List, [], ◌∷◌, Bytes, bytes_eq, codes, ok, err, Result,
}
use kchat_rust_sdk.Mls.Membership.{
  ReAddResult, contains_index, partition_without, all_key_packages, Membership, AddMembersResult,
  KeyPackageVerifyError, lifetime_error, check_admission, valid_key_packages,
  find_members_by_identity, get_identity_from_key_packages, contains_identity,
}
use kchat_rust_sdk.Mls.Membership.Operations.{add_members, readd}
use kchat_rust_sdk.Mls.Membership.Admission.{IsAdmitted, add_members-IsAdmitted}
use kchat_rust_sdk.Mls.Membership.Readmission.{IsPartition, AllValidated, readd-IsPartition}
use kchat_rust_sdk.Examples.Groups.{mls, own}

-- The empty package is out of date.
abbrev validate_toy : Bytes → Result KeyPackageVerifyError Bytes
validate_toy [] = err (lifetime_error (codes "expired"))
validate_toy (x ∷ xs) = ok (x ∷ xs)

abbrev ops : Membership mls
ops = record {
  Signer = Unit {0};
  KeyPackageIn = Bytes;
  KeyPackage = Bytes;
  Message = Bytes;
  Builder = Unit {0};
  members = λ g.
      record { index = 0; credential = own } ∷ record { index = 1; credential = codes "bob" } ∷ [];
  parse_key_package = λ b. ok b;
  validate = λ b. validate_toy b;
  leaf_credential = λ k. k;
  serialize = λ m. ok m;
  group_info_body = λ m. some m;
  add_members = λ signer ks g s. (ok (codes "commit", codes "welcome", none), g, s + 1);
  remove_members = λ signer is g s. (ok (codes "commit", none), g, s);
  self_update = λ signer g s. (ok (codes "commit", none), g, s);
  leave_group = λ signer g s. (ok (codes "leave"), g, s);
  recover_fork_by_readding = λ g is. ok tt;
  stage_readd = λ b ks signer g s. (ok (codes "commit", none, none), g, s);
}

abbrev added : AddMembersResult
added = record {
  welcome = codes "welcome";
  commit = codes "commit";
  group_info = none;
  current_epoch = 4;
  pre_tree_hash = 4 ∷ [];
}

abbrev packages : List Bytes
packages = [] ∷ codes "new" ∷ []

adds : add_members mls ops tt packages (4, 7) ≡ (ok added, (4, 8))
unfolding add_members check_admission valid_key_packages find_members_by_identity
    get_identity_from_key_packages contains_identity bytes_eq
adds = refl

add_members-IsAdmitted_example :
    (ks : List Bytes) × IsAdmitted mls ops 4 packages ks
    × ((ops.add_members tt ks 4 7).1 ≡ 4)
    × ((ops.add_members tt ks 4 7).2 ≡ 8)
    × (added.pre_tree_hash ≡ mls.tree_hash 4)
    × (added.current_epoch ≡ mls.epoch 4)
add_members-IsAdmitted_example = add_members-IsAdmitted mls ops tt packages 4 4 7 8 added adds

abbrev added_again : ReAddResult
added_again = record {
  welcome = none;
  commit = codes "commit";
  group_info = none;
  current_epoch = 4;
  pre_tree_hash = 4 ∷ [];
}

-- Bob is added again, and the other member stays.
readds : readd mls ops tt (codes "bob" ∷ []) (codes "bob" ∷ []) (4, 7) ≡ (ok added_again, (4, 7))
unfolding readd all_key_packages partition_without contains_index find_members_by_identity
    contains_identity bytes_eq
readds = refl

readd-IsPartition_example :
    (stay : List ℕ) × (builder : Unit {0}) × (ks : List Bytes) × IsPartition mls ops 4
      (codes "bob" ∷ [])
      stay
    × (ops.recover_fork_by_readding 4 stay ≡ ok builder)
    × AllValidated mls ops (codes "bob" ∷ []) ks
    × ((ops.stage_readd builder ks tt 4 7).1 ≡ 4)
    × ((ops.stage_readd builder ks tt 4 7).2 ≡ 7)
    × (added_again.pre_tree_hash ≡ mls.tree_hash 4)
    × (added_again.current_epoch ≡ mls.epoch 4)
readd-IsPartition_example =
    readd-IsPartition mls ops tt (codes "bob" ∷ []) (codes "bob" ∷ []) 4 4 7 7 added_again readds

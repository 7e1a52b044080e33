-- ===== src/Mls/Membership.antt =====
-- crates/uq-openmls/src/core.rs and util.rs: who is added to a group, removed from it and added again,
-- and the commits and proposals that this makes. What OpenMLS does is a record of functions.
pub mod Admission
pub mod Indices
pub mod Operations
pub mod Readmission
use kchat_rust_sdk.Base.{
  ℕ, Bool, true, false, not, Option, none, some, List, [], ◌∷◌, map, Bytes, codes, bytes_eq, ◌==◌,
  ◌||◌, ok, err, ◌>>=◌, Result, if◌then◌else◌,
}
use kchat_rust_sdk.Mls.Error.{
  Text, Error, Fallible, key_package_verify, some_members_already_existed_in_group, re_add,
}
use kchat_rust_sdk.Mls.OpenMls.{OpenMls}
use kchat_rust_sdk.Mls.Core.{GroupExec}

-- `KeyPackageVerifyError`, with its message.
pub data KeyPackageVerifyError : Type 0 where
  lifetime_error other_error : Text → KeyPackageVerifyError

-- The conversion of the error
abbrev pub from_verify_error : KeyPackageVerifyError → Error
from_verify_error (lifetime_error text) = key_package_verify text
from_verify_error (other_error text) = key_package_verify text

pub record Member (Credential : Type 0) : Type 0 where
  pub index : ℕ
  pub credential : Credential

pub record Membership (mls : OpenMls) : Type 1 where
  pub Signer : Type 0
  pub KeyPackageIn : Type 0
  pub KeyPackage : Type 0
  pub Message : Type 0
  pub Builder : Type 0
  pub members : mls.Group → List (Member mls.Credential)
  pub parse_key_package : Bytes → Fallible KeyPackageIn
  pub validate : KeyPackageIn → Result KeyPackageVerifyError KeyPackage
  pub leaf_credential : KeyPackage → mls.Credential
  pub serialize : Message → Fallible Bytes
  -- `MlsMessageBodyOut::GroupInfo` of a message
  pub group_info_body : Message → Option Message
  -- the messages made: a commit, a welcome, a group info
  pub add_members : Signer → List KeyPackage → GroupExec mls (Message × Message × Option Message)
  pub remove_members : Signer → List ℕ → GroupExec mls (Message × Option Message)
  pub self_update : Signer → GroupExec mls (Message × Option Message)
  pub leave_group : Signer → GroupExec mls Message
  pub recover_fork_by_readding : mls.Group → List ℕ → Result Text Builder
  -- the pre-shared keys are loaded, the commit is built and staged
  pub stage_readd :
      Builder → List KeyPackage → Signer → GroupExec mls (Message × Option Message × Option Message)

pub record AddMembersResult : Type 0 where
  pub welcome : Bytes
  pub commit : Bytes
  pub group_info : Option Bytes
  pub current_epoch : ℕ
  pub pre_tree_hash : Bytes

-- `RemoveMembersResult` and `UpdateLeafNodeResult`, which have the same fields.
pub record CommitResult : Type 0 where
  pub commit : Bytes
  pub group_info : Option Bytes
  pub current_epoch : ℕ
  pub pre_tree_hash : Bytes

pub record ReAddResult : Type 0 where
  pub welcome : Option Bytes
  pub commit : Bytes
  pub group_info : Option Bytes
  pub current_epoch : ℕ
  pub pre_tree_hash : Bytes

unfoldable pub contains_identity : List Bytes → Bytes → Bool
contains_identity [] id = false
contains_identity (x ∷ xs) id = bytes_eq x id || contains_identity xs id

unfoldable pub contains_index : List ℕ → ℕ → Bool
contains_index [] i = false
contains_index (j ∷ js) i = j == i || contains_index js i

module _ (mls : OpenMls) (ops : Membership mls) where
  open mls use {Group, Store, Credential}

  abbrev pub has_identity : List Bytes → Member Credential → Bool
  has_identity identities m = elim (mls.basic_identity m.credential) [
    | none ↦ false
    | some id ↦ contains_identity identities id
  ]

  unfoldable pub find_members_by_identity :
      List (Member Credential) → List Bytes → List (Member Credential)
  find_members_by_identity [] identities = []
  find_members_by_identity (m ∷ ms) identities =
      let rest = find_members_by_identity ms identities in
      if has_identity identities m then m ∷ rest else rest

  unfoldable pub get_identity_from_key_packages : List ops.KeyPackage → List Bytes
  get_identity_from_key_packages [] = []
  get_identity_from_key_packages (k ∷ ks) =
      let rest = get_identity_from_key_packages ks in
      elim (mls.basic_identity (ops.leaf_credential k)) [ none ↦ rest | some id ↦ id ∷ rest ]

  -- The packages that are valid; those whose lifetime is not are left out.
  unfoldable pub valid_key_packages : List Bytes → Fallible (List ops.KeyPackage)
  valid_key_packages [] = ok []
  valid_key_packages (bytes ∷ ins) = do
    let rest = valid_key_packages ins
    packed ← ops.parse_key_package bytes
    elim (ops.validate packed) [
      | ok k ↦ elim rest [ err e ↦ err e | ok ks ↦ ok (k ∷ ks) ]
      | err e ↦ elim e [
        | lifetime_error text ↦ rest
        | other_error text ↦ err (key_package_verify text)
      ]
    ]

  -- `Option` of a message, serialised
  abbrev pub serialize_option : Option ops.Message → Fallible (Option Bytes)
  serialize_option none = ok none
  serialize_option (some m) = do bytes ← ops.serialize m; ok (some bytes)

  unfoldable pub check_admission : Group → List Bytes → Fallible (List ops.KeyPackage)
  check_admission g key_package_ins = do
    key_packages ← valid_key_packages key_package_ins
    elim key_packages [
      | [] ↦ err (Error.add_members (codes "The lifetime of the all leaf node is not valid."))
      | (k ∷ ks) ↦
          elim (find_members_by_identity (ops.members g)
            (get_identity_from_key_packages (k ∷ ks))) [
              | [] ↦ ok (k ∷ ks)
              | (m ∷ ms) ↦ err some_members_already_existed_in_group
            ]
    ]

  abbrev pub indices_of : Group → List Bytes → List ℕ
  indices_of g member_ids = map (λ m. m.index) (find_members_by_identity (ops.members g) member_ids)

  -- The members that stay, of those that are not added again.
  unfoldable pub partition_without : List ℕ → List (Member Credential) → List ℕ
  partition_without indices [] = []
  partition_without indices (m ∷ ms) =
      let rest = partition_without indices ms in
      if contains_index indices m.index then rest else m.index ∷ rest

  -- Here a package whose lifetime is over is an error as well.
  unfoldable pub all_key_packages : List Bytes → Fallible (List ops.KeyPackage)
  all_key_packages [] = ok []
  all_key_packages (bytes ∷ ins) = do
    let rest = all_key_packages ins
    packed ← ops.parse_key_package bytes
    elim (ops.validate packed) [
      | ok k ↦ elim rest [ err e ↦ err e | ok ks ↦ ok (k ∷ ks) ]
      | err e ↦ err (from_verify_error e)
    ]

  -- The body of the group info message, if it is one, serialised
  abbrev pub serialize_group_info : Option ops.Message → Fallible (Option Bytes)
  serialize_group_info none = ok none
  serialize_group_info (some m) = serialize_option (ops.group_info_body m)

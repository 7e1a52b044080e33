-- ===== src/Mls/Process.antt =====
-- `process_all_messages` of crates/kchat-mls/src/lib.rs, stage by stage.
pub mod Scan
pub mod Apply
pub mod Invariants
pub mod Report
use kchat_rust_sdk.Base.{
  ℕ, Bool, true, false, Option, none, some, List, [], ◌∷◌, ◌++◌, map, ok, err,
}
use kchat_rust_sdk.Mls.Error.{Text, Error, Fallible}
use kchat_rust_sdk.Mls.Member.{MemberInfo}
use kchat_rust_sdk.Mls.Status.{operation_of_text, get_group_pending_operation}
use kchat_rust_sdk.Mls.Messages.{
  MlsMessage, AllMessagesOfGroup, CustomProposal, MessageType, welcome,
}
use kchat_rust_sdk.Mls.OpenMls.{OpenMls}
use kchat_rust_sdk.Mls.Core.{load_group_with_epoch_message_secrets}
use kchat_rust_sdk.Mls.Pending.{World, Resolved, Act, resolve}
use Scan.{ScanState, own_id_from_leaf_node, scan_messages}
use Apply.{ApplyState, GroupError, apply_messages}

pub record GroupResult : Type 0 where
  pub group_id : Text
  pub members_to_remove : List MemberInfo
  pub members_to_readd : List MemberInfo
  pub error : Option GroupError

pub record ProcessAllMessagesResult : Type 0 where
  pub group_results : List GroupResult
  pub deleted_groups : List Text

-- The epochs of the messages that are no welcomes.
unfoldable pub preload_epochs : List MlsMessage → List ℕ
preload_epochs [] = []
preload_epochs (m ∷ ms) =
    let rest = preload_epochs ms in elim m.message_type [ welcome ↦ rest | _ ↦ m.epoch ∷ rest ]

module _ (mls : OpenMls) (from_json : List ℕ → Option CustomProposal) where
  open mls use {Group, Store}

  -- The desync check of a group that was loaded: `none` is the source's `continue`.
  unfoldable pub check_pending : AllMessagesOfGroup → Group → Act mls (Option (Resolved Group))
  check_pending m g w = elim (own_id_from_leaf_node mls g) [
    | none ↦ (ok none, w)
    | some own_id ↦
        let (text, status) = get_group_pending_operation m.group_id w.status in
        let w' : World Store = record w { status = status } in
        elim text [
          | err e ↦ (err e, w')
          | ok found ↦
              let (r, w'') = resolve mls (operation_of_text found) m g own_id w' in
              elim r [ err e ↦ (err e, w'') | ok x ↦ (ok (some x), w'') ]
        ]
  ]

  -- The two passes over the messages of a group.
  unfoldable pub run_messages :
      AllMessagesOfGroup → Option Group → World Store → GroupResult × World Store
  run_messages m g w =
      let scanned = scan_messages mls from_json m.messages (record {
        group = g;
        store = w.store;
        to_remove = [];
        member_sets = none;
        latest_epoch = 0;
      }) in
      let applied =
        apply_messages mls from_json m.group_id scanned.latest_epoch m.messages (record {
          group = scanned.group;
          store = scanned.store;
          loaded = false;
          to_remove = scanned.to_remove;
          to_readd = [];
          error = none;
        }) in
      (
        record {
          group_id = m.group_id;
          members_to_remove = map (λ x. x.0) applied.to_remove;
          members_to_readd = applied.to_readd;
          error = applied.error;
        },
        record w { store = applied.store },
      )

  abbrev pub add_deleted : Bool → Text → List Text → List Text
  add_deleted true group_id ids = ids ++ (group_id ∷ [])
  add_deleted false group_id ids = ids

  -- One group, and what it adds to the result.
  unfoldable pub process_group :
      AllMessagesOfGroup → ProcessAllMessagesResult → Act mls ProcessAllMessagesResult
  process_group m result w =
      elim (load_group_with_epoch_message_secrets mls m.group_id (preload_epochs m.messages)
        w.store) [
          | err _ ↦
              let (r, w') = run_messages m none w in
              (ok (record result { group_results = result.group_results ++ (r ∷ []) }), w')
          | ok g ↦
              let (checked, w₁) = check_pending m g w in
              elim checked [
                | err e ↦ (err e, w₁)
                | ok found ↦ elim found [
                  | none ↦ (ok result, w₁)
                  | some x ↦
                      let (r, w₂) = run_messages m x.group w₁ in
                      (
                        ok (record {
                          group_results = result.group_results ++ (r ∷ []);
                          deleted_groups = add_deleted x.deleted m.group_id result.deleted_groups;
                        }),
                        w₂,
                      )
                ]
              ]
        ]

  unfoldable pub process_groups :
      List AllMessagesOfGroup → ProcessAllMessagesResult → Act mls ProcessAllMessagesResult
  process_groups [] result w = (ok result, w)
  process_groups (m ∷ ms) result w =
      let (r, w') = process_group m result w in
      elim r [ err e ↦ (err e, w') | ok result' ↦ process_groups ms result' w' ]

  unfoldable pub process_all_messages : List AllMessagesOfGroup → Act mls ProcessAllMessagesResult
  process_all_messages ms = process_groups ms (record { group_results = []; deleted_groups = [] })

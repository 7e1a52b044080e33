-- ===== src/Mls/Process/Report.antt =====
-- What `process_all_messages` reports: which groups, and in which order.
use kchat_rust_sdk.Base.{
  ◌≡◌, inl, inr, ap, refl, sym, ◌∙◌, Bool, true, false, Option, none, some, List, [], ◌∷◌, ◌++◌,
  append-nil, append_assoc, subst, arith, ok, ℕ, Result-cases,
}
use kchat_rust_sdk.Mls.Error.{Text}
use kchat_rust_sdk.Mls.Messages.{AllMessagesOfGroup, CustomProposal}
use kchat_rust_sdk.Mls.OpenMls.{OpenMls}
use kchat_rust_sdk.Mls.Core.{load_group_with_epoch_message_secrets}
use kchat_rust_sdk.Mls.Pending.{World}
use kchat_rust_sdk.Mls.Process.{
  GroupResult, ProcessAllMessagesResult, preload_epochs, run_messages, check_pending, add_deleted,
  process_group, process_groups, process_all_messages,
}

-- The groups that have a result.
abbrev pub reported : List GroupResult → List Text
reported [] = []
reported (r ∷ rs) = r.group_id ∷ reported rs

abbrev pub group_ids : List AllMessagesOfGroup → List Text
group_ids [] = []
group_ids (m ∷ ms) = m.group_id ∷ group_ids ms

reported-append :
    (xs : List GroupResult) (r : GroupResult)
    → reported (xs ++ (r ∷ [])) ≡ reported xs ++ (r.group_id ∷ [])
reported-append [] r = refl
reported-append (x ∷ xs) r = ap (◌∷◌ x.group_id) (reported-append xs r)

-- Groups are skipped, reported, or reported and deleted; nothing is repeated or reordered.
pub data Reports : List Text → List Text → List Text → Type 0 where
  done : Reports [] [] []
  skipped :
      {id : Text} {ids shown gone : List Text}
      → Reports ids shown gone
      → Reports (id ∷ ids) shown gone
  kept :
      {id : Text} {ids shown gone : List Text}
      → Reports ids shown gone
      → Reports (id ∷ ids) (id ∷ shown) gone
  deleted :
      {id : Text} {ids shown gone : List Text}
      → Reports ids shown gone
      → Reports (id ∷ ids) (id ∷ shown) (id ∷ gone)

module _ (mls : OpenMls) (from_json : List ℕ → Option CustomProposal) where
  open mls use {Group, Store}

  run_messages-group_id :
      (m : AllMessagesOfGroup) (g : Option Group) (w : World Store)
      → (run_messages mls from_json m g w).0.group_id ≡ m.group_id
  unfolding run_messages
  run_messages-group_id m g w = refl

  -- One group's part in the report.
  pub data Step (id : Text) (before after : ProcessAllMessagesResult) : Type 0 where
    skip : after ≡ before → Step id before after
    keep :
        reported after.group_results ≡ reported before.group_results ++ (id ∷ [])
        → after.deleted_groups ≡ before.deleted_groups
        → Step id before after
    delete :
        reported after.group_results ≡ reported before.group_results ++ (id ∷ [])
        → after.deleted_groups ≡ before.deleted_groups ++ (id ∷ [])
        → Step id before after

  run_messages-reported :
      (m : AllMessagesOfGroup) (g : Option Group) (w : World Store) (rs : List GroupResult)
      → reported (rs ++ ((run_messages mls from_json m g w).0 ∷ []))
        ≡ reported rs ++ (m.group_id ∷ [])
  run_messages-reported m g w rs =
      reported-append rs (run_messages mls from_json m g w).0
      ∙ ap (λ i. reported rs ++ (i ∷ [])) (run_messages-group_id m g w)

  kept_lem :
      (m : AllMessagesOfGroup) (g : Option Group) (w : World Store) (gone : Bool)
      (before : ProcessAllMessagesResult)
      → Step m.group_id before (record {
        group_results = before.group_results ++ ((run_messages mls from_json m g w).0 ∷ []);
        deleted_groups = add_deleted mls from_json gone m.group_id before.deleted_groups;
      })
  kept_lem m g w true before = delete (run_messages-reported m g w before.group_results) refl
  kept_lem m g w false before = keep (run_messages-reported m g w before.group_results) refl

  process_group-Step :
      (m : AllMessagesOfGroup) (before after : ProcessAllMessagesResult) (w : World Store)
      → (process_group mls from_json m before w).0 ≡ ok after
      → Step m.group_id before after
  unfolding process_group
  process_group-Step m before after w h =
      elim (Result-cases (
        load_group_with_epoch_message_secrets mls m.group_id (preload_epochs m.messages) w.store)) [
          | inr (e, q) ↦
              subst (Step m.group_id before) (ground arith) (kept_lem m none w false before)
          | inl (g, q) ↦ elim (Result-cases (check_pending mls from_json m g w).0) [
            | inr (e, q') ↦ absurd (ground arith)
            | inl (none, q') ↦ skip (ground arith)
            | inl (some x, q') ↦
                subst (Step m.group_id before) (ground arith)
                  (kept_lem m x.group (check_pending mls from_json m g w).1 x.deleted before)
          ]
        ]

  pub record Reported (ms : List AllMessagesOfGroup) (before after : ProcessAllMessagesResult)
      : Type 0 where
    pub shown : List Text
    pub gone : List Text
    pub reports : Reports (group_ids ms) shown gone
    pub shown_eq : reported after.group_results ≡ reported before.group_results ++ shown
    pub gone_eq : after.deleted_groups ≡ before.deleted_groups ++ gone

  after-Step :
      (m : AllMessagesOfGroup) (ms : List AllMessagesOfGroup)
      (before after last : ProcessAllMessagesResult)
      → Step m.group_id before after
      → Reported ms after last
      → Reported (m ∷ ms) before last
  after-Step m ms before after last (skip e) r =
      subst (λ x. Reported (m ∷ ms) x last) e
        (record {
          shown = r.shown;
          gone = r.gone;
          reports = skipped r.reports;
          shown_eq = r.shown_eq;
          gone_eq = r.gone_eq;
        })
  after-Step m ms before after last (keep e d) r = record {
    shown = m.group_id ∷ r.shown;
    gone = r.gone;
    reports = kept r.reports;
    shown_eq =
        r.shown_eq
        ∙ ap (◌++ r.shown) e
        ∙ append_assoc (reported before.group_results) (m.group_id ∷ []) r.shown;
    gone_eq = r.gone_eq ∙ ap (◌++ r.gone) d;
  }
  after-Step m ms before after last (delete e d) r = record {
    shown = m.group_id ∷ r.shown;
    gone = m.group_id ∷ r.gone;
    reports = deleted r.reports;
    shown_eq =
        r.shown_eq
        ∙ ap (◌++ r.shown) e
        ∙ append_assoc (reported before.group_results) (m.group_id ∷ []) r.shown;
    gone_eq =
        r.gone_eq ∙ ap (◌++ r.gone) d ∙ append_assoc before.deleted_groups (m.group_id ∷ []) r.gone;
  }

  process_groups-Reported :
      (ms : List AllMessagesOfGroup) (before after : ProcessAllMessagesResult) (w : World Store)
      → (process_groups mls from_json ms before w).0 ≡ ok after
      → Reported ms before after
  unfolding process_groups
  process_groups-Reported [] before after w h = record {
    shown = [];
    gone = [];
    reports = done;
    shown_eq = ground (arith, append-nil (reported before.group_results));
    gone_eq = ground (arith, append-nil before.deleted_groups);
  }
  process_groups-Reported (m ∷ ms) before after w h =
      elim (Result-cases (process_group mls from_json m before w).0) [
        | inr (e, q) ↦ absurd (ground arith)
        | inl (x, q) ↦ after-Step m ms before x after (process_group-Step m before x w q) (
            process_groups-Reported ms x after (process_group mls from_json m before w).1
              (ground arith))
      ]

  -- If the processing of all groups succeeds, its result has groups in the order in which they
  -- were given, each no more often than it was given, and the deleted groups are, in that order,
  -- among those that it has.
  pub process_all_messages-Reports :
      (ms : List AllMessagesOfGroup) (r : ProcessAllMessagesResult) (w : World Store)
      → (process_all_messages mls from_json ms w).0 ≡ ok r
      → Reports (group_ids ms) (reported r.group_results) r.deleted_groups
  unfolding process_all_messages
  process_all_messages-Reports ms r w h =
      let start : ProcessAllMessagesResult = record { group_results = []; deleted_groups = [] } in
      let x = process_groups-Reported ms start r w h in
      subst (λ ids. Reports (group_ids ms) ids r.deleted_groups) (sym x.shown_eq)
        (subst (Reports (group_ids ms) x.shown) (sym x.gone_eq) x.reports)

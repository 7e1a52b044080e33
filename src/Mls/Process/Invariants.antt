-- ===== src/Mls/Process/Invariants.antt =====
-- What the two passes over the messages of a group keep (crates/kchat-mls/src/lib.rs).
use kchat_rust_sdk.Base.{
  ℕ, ◌≡◌, ◌⊎◌, inl, inr, ◌&&◌, Option, none, some, List, [], ◌∷◌, Bytes, arith, ltb, if◌then◌else◌,
  Option-cases, Result-cases, Bool-cases,
}
use kchat_rust_sdk.Mls.Error.{Text, Error}
use kchat_rust_sdk.Mls.Messages.{MlsMessage, CustomProposal, is_commit}
use kchat_rust_sdk.Mls.OpenMls.{OpenMls}
use kchat_rust_sdk.Mls.Core.{QueuedProposal, load_group_with_epoch_message_secrets}
use Prim.Native.Nat.{max}
use kchat_rust_sdk.Mls.Process.Scan.{
  ScanState, scan_messages, scan_message, scan_proposal, scan_custom, scan_custom_remove,
  scan_remove,
}
use kchat_rust_sdk.Mls.Process.Apply.{
  GroupError, ApplyState, apply_message, apply_messages, apply_welcome, apply_commit,
  apply_proposal, apply_operation, load_for_commit, fail_if_fatal, drop_already_removed,
  drop_removed, unless_failed, with_current, load_log, commit_log, operate,
}

-- The greatest epoch of the commits, 0 if there is none.
abbrev pub max_commit_epoch : List MlsMessage → ℕ
max_commit_epoch [] = 0
max_commit_epoch (m ∷ ms) =
    let rest = max_commit_epoch ms in if is_commit m.message_type then max m.epoch rest else rest

module _ (mls : OpenMls) (from_json : Bytes → Option CustomProposal) where
  open mls use {Group, Store}

  scan_remove-epoch :
      (m : MlsMessage) (p : QueuedProposal) (g : Group) (st : ScanState mls)
      → (scan_remove mls m p g st).latest_epoch ≡ st.latest_epoch
  unfolding scan_remove
  scan_remove-epoch m p g st = ground arith

  scan_custom-epoch :
      (m : MlsMessage) (g : Group) (st : ScanState mls)
      → (scan_custom mls from_json m g st).latest_epoch ≡ st.latest_epoch
  unfolding scan_custom scan_custom_remove
  scan_custom-epoch m g st = ground arith

  scan_proposal-epoch :
      (m : MlsMessage) (g : Group) (st : ScanState mls)
      → (scan_proposal mls from_json m g st).latest_epoch ≡ st.latest_epoch
  unfolding scan_proposal
  scan_proposal-epoch m g st = grind (arith, scan_custom-epoch, scan_remove-epoch)

  scan_message-epoch :
      (m : MlsMessage) (st : ScanState mls)
      → (scan_message mls from_json m st).latest_epoch ≡ (
          if ltb st.latest_epoch m.epoch && is_commit m.message_type
          then m.epoch
          else st.latest_epoch)
  unfolding scan_message
  scan_message-epoch m st = grind (arith, scan_proposal-epoch)

  -- An error stands only beside an empty list of members to remove.
  abbrev IsCut : ApplyState mls from_json → Type 0
  IsCut st = (st.error ≡ none) ⊎ (st.to_remove ≡ [])

  fail_if_fatal-IsCut :
      (log : Text) (e : Error) (st : ApplyState mls from_json)
      → IsCut st
      → IsCut (fail_if_fatal mls from_json log e st)
  unfolding fail_if_fatal
  fail_if_fatal-IsCut log e st h = ground arith

  load-IsCut :
      (id : Text) (m : MlsMessage) (st : ApplyState mls from_json)
      → IsCut st
      → IsCut (load_for_commit mls from_json id m st)
  unfolding load_for_commit
  load-IsCut id m st h = elim (Bool-cases st.loaded) [
    | inl l ↦ ground arith
    | inr l ↦
        elim (Result-cases (load_group_with_epoch_message_secrets mls id (m.epoch ∷ []) st.store)) [
          | inl (g, q) ↦ ground arith
          | inr (e, q) ↦ ground (arith, fail_if_fatal-IsCut (load_log id e) e st h)
        ]
  ]

  operation-IsCut :
      (id : Text) (m : MlsMessage) (g : Group) (st : ApplyState mls from_json)
      → IsCut st
      → IsCut (apply_operation mls from_json id m g st)
  unfolding apply_operation
  operation-IsCut id m g st h =
      let (x, g', s) = operate mls from_json m.blob g st.store in
      let st' : ApplyState mls from_json = record st { group = some g'; store = s } in
      elim (Result-cases x) [
        | inl (u, q) ↦ ground arith
        | inr (e, q) ↦ ground (arith, fail_if_fatal-IsCut (commit_log id e) e st' h)
      ]

  drop-IsCut :
      (m : MlsMessage) (st : ApplyState mls from_json)
      → IsCut st
      → IsCut (drop_already_removed mls from_json m st)
  unfolding drop_already_removed drop_removed
  drop-IsCut m st h = ground arith

  -- Steps and guards that keep it.
  unless_failed-IsCut :
      (f : ApplyState mls from_json → ApplyState mls from_json)
      → ((st : ApplyState mls from_json) → IsCut st → IsCut (f st))
      → (st : ApplyState mls from_json) → IsCut st
      → IsCut (unless_failed mls from_json f st)
  unless_failed-IsCut f k st h = ground (arith, k st h)

  with_current-IsCut :
      (f : Group → ApplyState mls from_json → ApplyState mls from_json)
      → ((g : Group) (st : ApplyState mls from_json) → IsCut st → IsCut (f g st))
      → (st : ApplyState mls from_json) → IsCut st
      → IsCut (with_current mls from_json f st)
  with_current-IsCut f k st h = elim (Option-cases st.group) [
    | inl q ↦ ground arith
    | inr (g, q) ↦ ground (arith, k g st h)
  ]

  commit-IsCut :
      (id : Text) (m : MlsMessage) (st : ApplyState mls from_json)
      → IsCut st
      → IsCut (apply_commit mls from_json id m st)
  unfolding apply_commit
  commit-IsCut id m st h =
      let operation = apply_operation mls from_json id m in
      let step : ApplyState mls from_json → ApplyState mls from_json = λ st₁.
        unless_failed mls from_json (with_current mls from_json operation)
          (load_for_commit mls from_json id m st₁) in
      let step_lem : (st₁ : ApplyState mls from_json) → IsCut st₁ → IsCut (step st₁) = λ st₁ h₁.
        unless_failed-IsCut (with_current mls from_json operation)
          (with_current-IsCut operation (operation-IsCut id m))
          (load_for_commit mls from_json id m st₁) (load-IsCut id m st₁ h₁) in
      unless_failed-IsCut (drop_already_removed mls from_json m) (drop-IsCut m)
        (with_current mls from_json (λ _. step) st)
        (with_current-IsCut (λ _. step) (λ _. step_lem) st h)

  message-IsCut :
      (id : Text) (n : ℕ) (m : MlsMessage) (st : ApplyState mls from_json)
      → IsCut st
      → IsCut (apply_message mls from_json id n m st)
  unfolding apply_message apply_welcome apply_proposal
  message-IsCut id n m st h = ground (arith, commit-IsCut id m st h)

  messages-IsCut :
      (id : Text) (n : ℕ) (ms : List MlsMessage) (st : ApplyState mls from_json)
      → IsCut st
      → IsCut (apply_messages mls from_json id n ms st)
  unfolding apply_messages
  messages-IsCut id n [] st h = h
  messages-IsCut id n (m ∷ ms) st h = ground (
    arith,
    messages-IsCut id n ms (apply_message mls from_json id n m st) (message-IsCut id n m st h),
  )

  -- If the second pass over the messages of a group ends in an error, from a state without one, then
  -- it asks for the removal of no member.
  pub apply_messages_error :
      (id : Text) (n : ℕ) (ms : List MlsMessage) (st : ApplyState mls from_json) (e : GroupError)
      → st.error ≡ none
      → (apply_messages mls from_json id n ms st).error ≡ some e
      → (apply_messages mls from_json id n ms st).to_remove ≡ []
  apply_messages_error id n ms st e h q = ground (arith, messages-IsCut id n ms st (inl h))

  -- The first pass ends with the greatest epoch of the commits among its messages, or with the epoch
  -- it started from if that is greater.
  pub scan_messages-max_commit_epoch :
      (ms : List MlsMessage) (st : ScanState mls)
      → (scan_messages mls from_json ms st).latest_epoch ≡ max (max_commit_epoch ms) st.latest_epoch
  unfolding scan_messages
  scan_messages-max_commit_epoch [] st = omega arith
  scan_messages-max_commit_epoch (m ∷ ms) st = grind (
    arith,
    scan_messages-max_commit_epoch ms (scan_message mls from_json m st),
    scan_message-epoch m st,
  )

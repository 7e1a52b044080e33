-- ===== src/Storage/GroupEpochMessageSecrets/Replace.antt =====
-- What a replacement of the secrets of a group keeps.
use kchat_rust_sdk.Base.{ℕ, Bool, List, [], ◌∷◌, Bytes}
use kchat_rust_sdk.Storage.Table.{bytes_key, number_key, pair_key, Row, upsert, delete_where}
use kchat_rust_sdk.Storage.Sqlite.{Tables, storage_provider_version}
use kchat_rust_sdk.Storage.Sqlite.Keeps.{Keeps, Keeps-then, keeps_rules}
use kchat_rust_sdk.Storage.Codec.{Codec}
use kchat_rust_sdk.Storage.GroupEpochMessageSecrets.{
  store_in_tx, delete_in_tx, store_each_in_tx, replace_in_tx,
}

-- The invariant is kept by the two statements of a replacement.
abbrev pub UpsertKeeps : (Tables → Type 0) → Type 0
UpsertKeeps P =
    (k : Bytes × ℕ) (x : Bytes) (t : Tables)
    → P t
    → P (record t {
      group_epoch_message_secrets =
          upsert storage_provider_version k x t.group_epoch_message_secrets;
    })

abbrev pub DeleteKeeps : (Tables → Type 0) → Type 0
DeleteKeeps P =
    (p : Row (Bytes × ℕ) Bytes → Bool) (t : Tables)
    → P t
    → P (record t { group_epoch_message_secrets = delete_where p t.group_epoch_message_secrets })

module _ (P : Tables → Type 0) (keeps : UpsertKeeps P × DeleteKeeps P) {G : Type 0}
    (group : Codec G) where
  pub store_in_tx-Keeps : (g : G) (e : ℕ) (b : Bytes) → Keeps P (store_in_tx group g e b)
  unfolding store_in_tx
  store_in_tx-Keeps g e b = search (keeps_rules, keeps.0) depth 9

  pub delete_in_tx-Keeps : (g : G) → Keeps P (delete_in_tx group g)
  unfolding delete_in_tx
  delete_in_tx-Keeps g = search (keeps_rules, keeps.1) depth 9

  store_each_in_tx-Keeps : (g : G) (l : List (ℕ × Bytes)) → Keeps P (store_each_in_tx group g l)
  unfolding store_each_in_tx
  store_each_in_tx-Keeps g [] = search keeps_rules
  store_each_in_tx-Keeps g ((e, b) ∷ l) =
      Keeps-then _ _ (store_in_tx-Keeps g e b) (store_each_in_tx-Keeps g l)

  pub replace_in_tx-Keeps : (g : G) (l : List (ℕ × Bytes)) → Keeps P (replace_in_tx group g l)
  unfolding replace_in_tx
  replace_in_tx-Keeps g l = Keeps-then _ _ (delete_in_tx-Keeps g) (store_each_in_tx-Keeps g l)

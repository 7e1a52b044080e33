-- ===== src/Storage/DecryptedApplicationMessages.antt =====
-- crates/kchat-storage-provider/src/decrypted_application_messages.rs: the cache of the application
-- messages that were decrypted, each with the time it expires.
pub mod Laws
use kchat_rust_sdk.Base.{
  Bool, ◌&&◌, not, Option, none, some, [], ◌∷◌, Bytes, bytes_eq, ◌==◌, ℤ, leb_int, ok,
}
use kchat_rust_sdk.Base.Exec.{lift, ◌>>=◌, ◌>>◌}
use kchat_rust_sdk.Storage.Table.{
  bytes_key, pair_key, Row, Table, has_key, select_where, first_value, upsert_if, delete_where,
}
use kchat_rust_sdk.Storage.Sqlite.{
  Text, DecryptedApplicationMessage, Exec, checkout, prepare_cached, execute, query_row, optional,
  storage_provider_version,
}
use kchat_rust_sdk.Storage.Codec.{Codec, key_to_sql}

-- `WHERE provider_version = ?1 AND group_id = ?2 AND message_id = ?3 AND expires_at > ?4`
abbrev pub is_live : Bytes → Text → ℤ → Row (Bytes × Text) DecryptedApplicationMessage → Bool
is_live g message_id now r =
    has_key storage_provider_version (g, message_id) r && not (leb_int r.value.expires_at now)

-- `WHERE provider_version = ?1 AND expires_at <= ?2`
abbrev pub is_expired : ℤ → Row (Bytes × Text) DecryptedApplicationMessage → Bool
is_expired now r =
    (r.provider_version == storage_provider_version) && leb_int r.value.expires_at now

-- `WHERE provider_version = ?1 AND group_id = ?2`
abbrev pub of_group : Bytes → Row (Bytes × Text) DecryptedApplicationMessage → Bool
of_group g r = (r.provider_version == storage_provider_version) && bytes_eq r.key.0 g

unfoldable pub prune_in_connection : ℤ → Exec (Unit {0})
prune_in_connection now = do
  prepare_cached
  execute (λ t. record t {
    decrypted_application_messages = delete_where (is_expired now) t.decrypted_application_messages;
  })

unfoldable pub prune : ℤ → Exec (Unit {0})
prune now = do checkout; prune_in_connection now

unfoldable pub prune_in_tx : ℤ → Exec (Unit {0})
prune_in_tx now = prune_in_connection now

module _ {G : Type 0} (group : Codec G) where
  unfoldable pub load_in_connection : G → Text → ℤ → Exec (Option DecryptedApplicationMessage)
  load_in_connection group_id message_id now = do
    prepare_cached
    g ← lift (key_to_sql group group_id)
    optional (
        query_row
          (λ t.
            first_value (select_where (is_live g message_id now) t.decrypted_application_messages))
          (λ entry. ok entry))

  unfoldable pub load : G → Text → ℤ → Exec (Option DecryptedApplicationMessage)
  load group_id message_id now = do checkout; load_in_connection group_id message_id now

  unfoldable pub load_in_tx : G → Text → ℤ → Exec (Option DecryptedApplicationMessage)
  load_in_tx group_id message_id now = load_in_connection group_id message_id now

  -- `ON CONFLICT … DO UPDATE … WHERE expires_at <= excluded.created_at`
  unfoldable pub insert_in_connection : G → Text → DecryptedApplicationMessage → Exec (Unit {0})
  insert_in_connection group_id message_id entry = do
    prepare_cached
    g ← lift (key_to_sql group group_id)
    execute (λ t. record t {
      decrypted_application_messages =
          upsert_if (λ old. leb_int old.expires_at entry.created_at) storage_provider_version
            (g, message_id) entry t.decrypted_application_messages;
    })

  unfoldable pub insert : G → Text → DecryptedApplicationMessage → Exec (Unit {0})
  insert group_id message_id entry = do checkout; insert_in_connection group_id message_id entry

  unfoldable pub insert_in_tx : G → Text → DecryptedApplicationMessage → Exec (Unit {0})
  insert_in_tx group_id message_id entry = insert_in_connection group_id message_id entry

  unfoldable pub delete_in_connection : G → Exec (Unit {0})
  delete_in_connection group_id = do
    prepare_cached
    g ← lift (key_to_sql group group_id)
    execute (λ t. record t {
      decrypted_application_messages = delete_where (of_group g) t.decrypted_application_messages;
    })

  unfoldable pub delete : G → Exec (Unit {0})
  delete group_id = do checkout; delete_in_connection group_id

  unfoldable pub delete_in_tx : G → Exec (Unit {0})
  delete_in_tx group_id = delete_in_connection group_id

-- ===== src/Storage/Proposals.antt =====
-- crates/kchat-storage-provider/src/proposals.rs: the proposals that are queued for a group.
use kchat_rust_sdk.Base.{Bool, ◌&&◌, Bytes, bytes_eq, List, ◌==◌, ok, err}
use kchat_rust_sdk.Base.Exec.{lift, ◌>>=◌, ◌>>◌}
use kchat_rust_sdk.Storage.Table.{
  bytes_key, pair_key, Row, has_key, select_where, insert_or_ignore, delete_where,
}
use kchat_rust_sdk.Storage.Sqlite.{
  Fallible, Exec, Scan, checkout, prepare_cached, execute, query_map, storage_provider_version,
}
use kchat_rust_sdk.Storage.Codec.{Codec, key_to_sql, entity_to_sql, entity_from_sql}

-- `WHERE group_id = ?1 AND provider_version = ?2`
abbrev pub of_group : Bytes → Row (Bytes × Bytes) Bytes → Bool
of_group g r = bytes_eq r.key.0 g && (r.provider_version == storage_provider_version)

-- `from_row`: the reference, then the proposal.
unfoldable pub from_row :
    {R P : Type 0} → Codec R → Codec P → Row (Bytes × Bytes) Bytes → Fallible (R × P)
from_row reference proposal r = elim (entity_from_sql reference r.key.1) [
  | err e ↦ err e
  | ok proposal_ref ↦ elim (entity_from_sql proposal r.value) [
    | err e ↦ err e
    | ok found ↦ ok (proposal_ref, found)
  ]
]

module _ {G : Type 0} (group : Codec G) where
  unfoldable pub delete_all_proposals : G → Exec (Unit {0})
  delete_all_proposals group_id = do
    checkout
    prepare_cached
    g ← lift (key_to_sql group group_id)
    execute (λ t. record t { proposals = delete_where (of_group g) t.proposals })

  unfoldable pub delete_all_proposals_in_tx : G → Exec (Unit {0})
  delete_all_proposals_in_tx group_id = do
    prepare_cached
    g ← lift (key_to_sql group group_id)
    execute (λ t. record t { proposals = delete_where (of_group g) t.proposals })

  module _ {R : Type 0} (reference : Codec R) where
    unfoldable pub delete_proposal : G → R → Exec (Unit {0})
    delete_proposal group_id proposal_ref = do
      checkout
      prepare_cached
      g ← lift (key_to_sql group group_id)
      r ← lift (key_to_sql reference proposal_ref)
      execute (λ t. record t {
        proposals = delete_where (has_key storage_provider_version (g, r)) t.proposals;
      })

    unfoldable pub delete_proposal_in_tx : G → R → Exec (Unit {0})
    delete_proposal_in_tx group_id proposal_ref = do
      prepare_cached
      g ← lift (key_to_sql group group_id)
      r ← lift (key_to_sql reference proposal_ref)
      execute (λ t. record t {
        proposals = delete_where (has_key storage_provider_version (g, r)) t.proposals;
      })

    unfoldable pub load_refs : Scan → G → Exec (List R)
    load_refs scan group_id = do
      checkout
      prepare_cached
      g ← lift (key_to_sql group group_id)
      query_map (λ t. scan.order (select_where (of_group g) t.proposals))
          (λ r. entity_from_sql reference r.key.1)

    unfoldable pub load_refs_in_tx : Scan → G → Exec (List R)
    load_refs_in_tx scan group_id = do
      prepare_cached
      g ← lift (key_to_sql group group_id)
      query_map (λ t. scan.order (select_where (of_group g) t.proposals))
          (λ r. entity_from_sql reference r.key.1)

    module _ {P : Type 0} (proposal : Codec P) where
      unfoldable pub load : Scan → G → Exec (List (R × P))
      load scan group_id = do
        checkout
        prepare_cached
        g ← lift (key_to_sql group group_id)
        query_map (λ t. scan.order (select_where (of_group g) t.proposals))
            (from_row reference proposal)

      unfoldable pub load_in_tx : Scan → G → Exec (List (R × P))
      load_in_tx scan group_id = do
        prepare_cached
        g ← lift (key_to_sql group group_id)
        query_map (λ t. scan.order (select_where (of_group g) t.proposals))
            (from_row reference proposal)

      unfoldable pub store : G → R → P → Exec (Unit {0})
      store group_id proposal_ref queued = do
        checkout
        prepare_cached
        g ← lift (key_to_sql group group_id)
        r ← lift (entity_to_sql reference proposal_ref)
        x ← lift (entity_to_sql proposal queued)
        execute (λ t. record t {
          proposals = insert_or_ignore storage_provider_version (g, r) x t.proposals;
        })

      unfoldable pub store_in_tx : G → R → P → Exec (Unit {0})
      store_in_tx group_id proposal_ref queued = do
        prepare_cached
        g ← lift (key_to_sql group group_id)
        r ← lift (entity_to_sql reference proposal_ref)
        x ← lift (entity_to_sql proposal queued)
        execute (λ t. record t {
          proposals = insert_or_ignore storage_provider_version (g, r) x t.proposals;
        })

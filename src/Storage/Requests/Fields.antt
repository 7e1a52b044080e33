-- ===== src/Storage/Requests/Fields.antt =====
-- The group data as a map from groups and fields to entities.
use kchat_rust_sdk.Base.{◌≡◌, refl, none, some, [], Bytes, ok, if◌then◌else◌}
use kchat_rust_sdk.Storage.Codec.{RoundTrips}
use kchat_rust_sdk.Storage.GroupData
use kchat_rust_sdk.Storage.GroupData.{GroupDataType}
use kchat_rust_sdk.Storage.GroupData.Laws.{
  same_cell, load_in_tx-store_in_tx, load_in_tx-delete_in_tx,
}
use kchat_rust_sdk.Storage.Provider.TxGroups
use kchat_rust_sdk.Storage.Requests.{Field, Client, write_field_tx, read_field_tx, delete_field_tx}
use kchat_rust_sdk.Storage.Sqlite.{Database}

-- The kind of data that the crate keeps for a field.
abbrev pub kind : Field → GroupDataType
kind Field.join_config = GroupDataType.join_group_config
kind Field.tree = GroupDataType.tree
kind Field.interim_transcript_hash = GroupDataType.interim_transcript_hash
kind Field.context = GroupDataType.context
kind Field.confirmation_tag = GroupDataType.confirmation_tag
kind Field.group_state = GroupDataType.group_state
kind Field.message_secrets = GroupDataType.message_secrets
kind Field.resumption_psk_store = GroupDataType.resumption_psk_store
kind Field.own_leaf_index = GroupDataType.own_leaf_index
kind Field.group_epoch_secrets = GroupDataType.group_epoch_secrets
kind Field.application_export_tree = GroupDataType.application_export_tree

module _ (c : Client) where
  write_field-eq :
      (f : Field) (g : c.Group) (x : c.Entity)
      → write_field_tx c f g x ≡ GroupData.store_in_tx c.group c.entity g (kind f) x
  unfolding TxGroups.write_mls_join_config TxGroups.write_tree
      TxGroups.write_interim_transcript_hash TxGroups.write_context TxGroups.write_confirmation_tag
      TxGroups.write_group_state TxGroups.write_message_secrets TxGroups.write_resumption_psk_store
      TxGroups.write_own_leaf_index TxGroups.write_group_epoch_secrets
      TxGroups.write_application_export_tree
  write_field-eq Field.join_config g x = refl
  write_field-eq Field.tree g x = refl
  write_field-eq Field.interim_transcript_hash g x = refl
  write_field-eq Field.context g x = refl
  write_field-eq Field.confirmation_tag g x = refl
  write_field-eq Field.group_state g x = refl
  write_field-eq Field.message_secrets g x = refl
  write_field-eq Field.resumption_psk_store g x = refl
  write_field-eq Field.own_leaf_index g x = refl
  write_field-eq Field.group_epoch_secrets g x = refl
  write_field-eq Field.application_export_tree g x = refl

  read_field-eq :
      (f : Field) (g : c.Group)
      → read_field_tx c f g ≡ GroupData.load_in_tx c.group c.entity g (kind f)
  unfolding TxGroups.mls_group_join_config TxGroups.tree TxGroups.interim_transcript_hash
      TxGroups.group_context TxGroups.confirmation_tag TxGroups.group_state TxGroups.message_secrets
      TxGroups.resumption_psk_store TxGroups.own_leaf_index TxGroups.group_epoch_secrets
      TxGroups.application_export_tree
  read_field-eq Field.join_config g = refl
  read_field-eq Field.tree g = refl
  read_field-eq Field.interim_transcript_hash g = refl
  read_field-eq Field.context g = refl
  read_field-eq Field.confirmation_tag g = refl
  read_field-eq Field.group_state g = refl
  read_field-eq Field.message_secrets g = refl
  read_field-eq Field.resumption_psk_store g = refl
  read_field-eq Field.own_leaf_index g = refl
  read_field-eq Field.group_epoch_secrets g = refl
  read_field-eq Field.application_export_tree g = refl

  delete_field-eq :
      (f : Field) (g : c.Group)
      → delete_field_tx c f g ≡ GroupData.delete_group_data_in_tx c.group g (kind f)
  unfolding TxGroups.delete_group_config TxGroups.delete_tree
      TxGroups.delete_interim_transcript_hash TxGroups.delete_context
      TxGroups.delete_confirmation_tag TxGroups.delete_group_state TxGroups.delete_message_secrets
      TxGroups.delete_all_resumption_psk_secrets TxGroups.delete_own_leaf_index
      TxGroups.delete_group_epoch_secrets TxGroups.delete_application_export_tree
  delete_field-eq Field.join_config g = refl
  delete_field-eq Field.tree g = refl
  delete_field-eq Field.interim_transcript_hash g = refl
  delete_field-eq Field.context g = refl
  delete_field-eq Field.confirmation_tag g = refl
  delete_field-eq Field.group_state g = refl
  delete_field-eq Field.message_secrets g = refl
  delete_field-eq Field.resumption_psk_store g = refl
  delete_field-eq Field.own_leaf_index g = refl
  delete_field-eq Field.group_epoch_secrets g = refl
  delete_field-eq Field.application_export_tree g = refl

  -- While SQLite does not fail and the codec decodes what it encoded, the field of a group that is read
  -- after a field of a group was written is the entity written, where the two are the same field of the
  -- same group, and otherwise what it was before: no writer touches the field of another reader.
  pub read_field_tx-write_field_tx :
      (g h : c.Group) (m n : Bytes) (e f : Field) (x : c.Entity) (v : Bytes) (db : Database)
      → RoundTrips c.entity
      → db.faults ≡ []
      → c.group.to_vec g ≡ some m
      → c.group.to_vec h ≡ some n
      → c.entity.to_vec x ≡ some v
      → (read_field_tx c f h (write_field_tx c e g x db).1).0
        ≡ (if same_cell m (kind e) n (kind f) then ok (some x) else (read_field_tx c f h db).0)
  read_field_tx-write_field_tx g h m n e f x v db laws i j k l =
      rw (write_field-eq e g x, read_field-eq f h)
        (load_in_tx-store_in_tx c.group c.entity g h m n (kind e) (kind f) x v db laws i j k l)

  -- While SQLite does not fail, a field of a group that is read after a field of a group was deleted is
  -- absent, where the two are the same, and otherwise what it was before.
  pub read_field_tx-delete_field_tx :
      (g h : c.Group) (m n : Bytes) (e f : Field) (db : Database)
      → db.faults ≡ []
      → c.group.to_vec g ≡ some m
      → c.group.to_vec h ≡ some n
      → (read_field_tx c f h (delete_field_tx c e g db).1).0
        ≡ (if same_cell m (kind e) n (kind f) then ok none else (read_field_tx c f h db).0)
  read_field_tx-delete_field_tx g h m n e f db i j k =
      rw (delete_field-eq e g, read_field-eq f h)
        (load_in_tx-delete_in_tx c.group c.entity g h m n (kind e) (kind f) db i j k)

-- ===== src/Lib.antt =====
-- The core of the KChat Rust SDK: encrypted backups, the processing of MLS messages, and the SQLite
-- tables in which the state of MLS groups is kept.
--
-- The program. crates/kchat-backup turns a password or a mnemonic into backup keys, keeps a
-- descriptor from which a client finds out how its backup is encrypted, and seals objects:
-- plaintext is read in chunks, compressed, cut into blocks of 64 KiB, encrypted, framed and written
-- to a sink. crates/kchat-mls keeps, per group, an operation that is pending on the server, and
-- processes the messages of many groups: first it decides what becomes of a pending commit, then it
-- goes over the messages twice. It also derives recovery keys from a mnemonic, and signs with them.
-- It calls crates/uq-openmls for group operations, each in a transaction of the provider in
-- crates/uq-openmls/src/provider/sqlite_provider.rs. That provider keeps its data in
-- crates/kchat-storage-provider, which implements the storage trait of OpenMLS on SQLite tables,
-- once on a pool of connections and once in a transaction.
--
-- The files.
--   Base and Base/*: numbers, lists, bytes, results, shared by all.
--   Backup/Error, Backup/Limits: error.rs and limits.rs of crates/kchat-backup/src.
--   Backup/Crypto: the cryptographic libraries, as a record of functions and laws.
--   Backup/Exec: calls on a changing state that may fail.
--   Backup/Key: key/mod.rs, key/password.rs, key/mnemonic.rs of crates/kchat-backup/src.
--   Backup/Context: account.rs and context.rs.
--   Backup/Descriptor: descriptor.rs.
--   Backup/Object/Envelope: object/envelope.rs.
--   Backup/Object/Io: object/io.rs.
--   Backup/Object/Stream: the streaming cipher, SHA-256 and Zstd, as records of functions.
--   Backup/Object/Frames: EnvelopeWriter of object/writer.rs.
--   Backup/Object/Writer: BackupObjectWriterV1 and seal_object_v1 of object/writer.rs.
--   Backup/Object/Reader: CheckedSource of object/reader.rs.
--   Backup/Object/Reader/Open: authenticate_envelope and open_object_v1 there.
--   Backup/Object/Compression, Backup/Object/Compression/Header: object/compression.rs.
--   Storage/Codec: codec.rs and wrappers.rs of crates/kchat-storage-provider/src.
--   Storage/Table: a table as the list of its rows, and the SQL statements.
--   Storage/Sqlite: the database, and the connections and transactions of storage_provider.rs.
--   Storage/EncryptionKeyPairs, EpochKeyPairs, SignatureKeyPairs, KeyPackages, Psks, OwnLeafNodes,
--     Proposals, GroupData, GroupEpochMessageSecrets, DecryptedApplicationMessages,
--     EpochMigrationState, GroupDelete: the file of that name, each with its table.
--   Storage/Provider: the trait implementations and methods of storage_provider.rs; Pool* are those of
--     SqliteStorageProvider, Tx* those of TransactionalStorageProvider.
--   Storage/Migrations: run_migrations and bootstrap_legacy_kchat_migration_history there.
--   Storage/Requests: the changes that a client makes, as values. Storage/WellFormed: primary keys.
--   Mls/Error: crates/uq-openmls/src/error.rs.
--   Mls/OpenMls: openmls, rusqlite and the UTF-8 check, as one record of types and functions.
--   Mls/Core: the operations of crates/uq-openmls/src/core.rs that message processing calls, and
--     SqliteProvider::transaction and load_group_with_epoch_message_secrets.
--   Mls/Provider: delete_group and try_migrate_epoch_message_secrets of sqlite_provider.rs, on the
--     tables of Storage.
--   Mls/Membership: adding, removing and re-adding members in core.rs and util.rs of
--     crates/uq-openmls/src; Operations are the calls, Admission is who may be added,
--     Indices and Readmission are who stays when others are added again.
--   Mls/Signatures: the signature libraries, as records of functions.
--   Mls/Mnemonic: mnemonic.rs of crates/kchat-mls/src.
--   Mls/Member, Mls/Status, Mls/Messages: member ids, the status table, and the messages of
--     crates/kchat-mls/src/lib.rs.
--   Mls/Pending: the desync check of process_all_messages there.
--   Mls/Process: the rest of process_all_messages; Scan and Apply are its two passes.
--   Examples/*: small libraries and callers, and the theorems applied to them.
-- The children of a module named for a component hold what is proved of it.
--
-- How the code is modelled. Integers are the native numbers; a u64 addition that is checked is
-- compared with its maximum, and the epoch arithmetic of get_first_message keeps the wrap-around of
-- a release build. Byte strings and strings are lists of numbers. What the program mutates is passed
-- in and handed back, also beside an error. A source, a sink, a cipher, a compressor and the MLS
-- library are records of functions over a state of their own, about which nothing is assumed but
-- what a named hypothesis says: that a sink shows the bytes it accepted, that a source has fixed
-- contents and that an empty read is its end, that a cipher opens what it sealed and is
-- deterministic, that a decoder reads no more than it is given, that HKDF gives 32 bytes and that a
-- phrase parses to its mnemonic.
-- The random generator is an argument, and so is a schedule of SQLite failures, for the status table
-- and for the tables of the storage provider: each statement, checkout and commit takes the head of
-- the schedule. A table is a list of rows, and INSERT, REPLACE, DELETE and SELECT are list functions
-- that keep what SQLite promises of a primary key; the order in which a query without ORDER BY
-- reads rows is a parameter. A transaction that fails gives the tables back as they were. The codec is
-- a parameter, of which some results assume that it decodes what it encoded. The tables have the
-- columns that the last migration leaves, and integers of SQLite reach 2 ^ 63 - 1.
-- Hash maps and hash sets are lists in order of first insertion. A digest is modelled by what was
-- fed to it.
--
-- Fuel. The search for a P-256 key has the 256 rounds of its one-byte counter. The copy and the
-- sealing loop have one round more than the 1 GiB of plaintext that they let pass, since each round
-- that goes on takes at least one byte. The loop that seals blocks has a round for each pending
-- byte, and each round takes 64 KiB of them. `chunks` and exact reads have one for each byte. The
-- loop over frames has a round for each byte that an object may have, and each takes at least the
-- four bytes of a length; the decoding loop has one for each byte given and each byte below the
-- limit, and a round that goes on reads or writes one.
--
-- Not modelled. Opening and listing in crates/kchat-mls/src/lib.rs; the operations of
-- crates/uq-openmls/src/core.rs for key packages, signers, application messages, batches of
-- operation messages, external commits and the export of group infos; the opening of databases, the
-- connection manager of the pool and the runner of refinery, which are input and output of
-- libraries; the Node and UniFFI bindings, which convert values. Zeroisation, debug output and log
-- lines have no part in the results, except the log lines that decide whether an error ends the
-- second pass.
pub mod Base
pub mod Backup
pub mod Storage
pub mod Mls
pub mod Examples

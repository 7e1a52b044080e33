-- ===== src/Storage.antt =====
-- crates/kchat-storage-provider: the tables that OpenMLS keeps its state in.
pub mod Table
pub mod Sqlite
pub mod Codec
pub mod EncryptionKeyPairs
pub mod KeyPackages
pub mod Psks
pub mod SignatureKeyPairs
pub mod GroupData
pub mod EpochKeyPairs
pub mod OwnLeafNodes
pub mod Proposals
pub mod EpochMigrationState
pub mod GroupEpochMessageSecrets
pub mod DecryptedApplicationMessages
pub mod GroupDelete
pub mod Provider
pub mod Requests
pub mod WellFormed
pub mod Migrations

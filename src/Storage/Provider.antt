-- ===== src/Storage/Provider.antt =====
-- crates/kchat-storage-provider/src/storage_provider.rs: what OpenMLS calls, on the pool and in a
-- transaction.
pub mod PoolGroups
pub mod TxGroups
pub mod Pool
pub mod Tx
pub mod PoolMethods
pub mod TxMethods

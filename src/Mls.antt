-- ===== src/Mls.antt =====
-- The MLS logic of the SDK: crates/kchat-mls over crates/uq-openmls.
pub mod Error
pub mod Member
pub mod Status
pub mod OpenMls
pub mod Core
pub mod Signatures
pub mod Mnemonic
pub mod Membership
pub mod Messages
pub mod Pending
pub mod Process
pub mod Provider

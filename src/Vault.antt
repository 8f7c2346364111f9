-- ===== src/Vault.antt =====
-- The crate `lockrail-vault`: crates/lockrail-vault/src/lib.rs.
pub mod Error
pub mod Document
pub mod Libraries
pub mod Exec
pub mod Order
pub mod Names
pub mod Envelope
pub mod Keys
pub mod Save
pub mod Agents
pub mod WellFormed
pub mod Steps

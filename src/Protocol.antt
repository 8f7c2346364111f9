-- ===== src/Protocol.antt =====
-- The crate `lockrail-protocol`: crates/lockrail-protocol/src.
pub mod Error
pub mod Path
pub mod QueryPolicy
pub mod Presets
pub mod Claims
pub mod Url
pub mod Enforce
pub mod Json
pub mod Crypto
pub mod Agent
pub mod Token
pub mod Proof
pub mod Receipt
pub mod Net
pub mod Seal
pub mod Samples
mod Tests

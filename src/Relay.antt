-- ===== src/Relay.antt =====
-- The crate `lockrail-relay`: crates/lockrail-relay/src/lib.rs.
pub mod Disk
pub mod Replay
pub mod Usage
pub mod Rebinding
pub mod Response
pub mod Refusal
pub mod Request
pub mod World
pub mod Checks
pub mod Admit
pub mod Perform

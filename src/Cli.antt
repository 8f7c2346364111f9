-- ===== src/Cli.antt =====
-- The crate `lockrail-cli`: preset_claims of crates/lockrail-cli/src/main.rs, and inject.rs.
pub mod Inject
pub mod PresetClaims

-- ===== src/Vault/Error.antt =====
-- `VaultError` of crates/lockrail-vault/src/lib.rs. An error that wraps one of the operating system
-- or of serde_json does not carry it here.
use lockrail.Prelude.{ℕ}
use lockrail.Protocol.Error.{ProtocolError}

pub data VaultError : Type 0 where
  io json crypto wrong_password : VaultError
  version : ℕ → VaultError
  exists missing missing_credential credential_exists invalid_name : VaultError
  usage_limit_exceeded replay_detected policy_denied revoked : VaultError
  protocol : ProtocolError → VaultError

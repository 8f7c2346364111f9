-- ===== src/Relay/Refusal.antt =====
-- How `perform_relay` of crates/lockrail-relay/src/lib.rs fails: the errors that anyhow wraps.
use lockrail.Audit.{AuditError}
use lockrail.Protocol.Error.{ProtocolError}
use lockrail.Protocol.Seal.Step.{Stop}
use lockrail.Relay.Rebinding.{GuardError}
use lockrail.Vault.Exec.{Failure}

-- `scanner` is a panic of the scanner on the response, which ends the process.
pub data RelayError : Type 0 where
  vault : Failure → RelayError
  protocol : ProtocolError → RelayError
  guard : GuardError → RelayError
  log : AuditError → RelayError
  scanner : Stop → RelayError
  json unresolved header method no_host client unsent unread : RelayError

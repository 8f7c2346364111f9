-- ===== src/Protocol/Error.antt =====
-- `ProtocolError` of crates/lockrail-protocol/src/lib.rs. An error that wraps one of serde_json or
-- of the url crate does not carry it here.
use lockrail.Prelude.{ℕ, Result}
use lockrail.Prelude.Text.{Text}

pub data ProtocolError : Type 0 where
  json base64 signature malformed_token unsupported_token_prefix : ProtocolError
  capability_expired capability_not_yet_valid capability_issued_in_future : ProtocolError
  capability_revoked audience_mismatch missing_proof proof_version : ProtocolError
  proof_request_mismatch proof_skew proof_task_mismatch proof_purpose_mismatch : ProtocolError
  url key : ProtocolError
  scheme_not_allowed host_not_allowed ip_not_allowed : Text → ProtocolError
  port_not_allowed : ℕ → ProtocolError
  method_not_allowed path_not_allowed : Text → ProtocolError
  query_not_allowed : ProtocolError
  content_type_not_allowed : Text → ProtocolError
  body_too_large : ProtocolError

abbrev pub Outcome : Type 0 → Type 0
Outcome A = Result ProtocolError A

-- ===== src/Relay/Perform.antt =====
-- `perform_relay` of crates/lockrail-relay/src/lib.rs: a request from its start to its answer.
-- `now` is the clock's value, read once in a call.
pub mod Authorised
pub mod Checked
pub mod Cleared
pub mod Once
pub mod Quiet
mod Tests
use lockrail.Prelude.{
  ℕ, Bool, true, false, Option, none, some, List, [], ◌∷◌, if◌then◌else◌, Result, ok, err, ok_or,
  map_err, reject_if, not,
}
use lockrail.Prelude.Map.{Map, insert}
use lockrail.Prelude.Text.{Text, codes}
use mathlib.Core.Option.{get_or}
use lockrail.Audit
use lockrail.Protocol.Claims.{CapabilityClaims}
use lockrail.Protocol.Crypto.{body_hash, capability_hash}
use lockrail.Protocol.Json.{Json, Fields}
use lockrail.Protocol.Proof.{AccessProofPayload}
use lockrail.Protocol.Net.Addr.{IpAddr}
use lockrail.Protocol.Url.{Url}
use lockrail.Protocol.Receipt
use lockrail.Relay.Admit.{Admission, admit}
use lockrail.Relay.Checks.{checked_addrs, inject_secret, built}
use lockrail.Relay.Refusal.{RelayError, vault, protocol, scanner, no_host, client, unread}
use lockrail.Relay.Refusal
use lockrail.Relay.Request.{RelayRequest, RelayResponse, body_bytes}
use lockrail.Relay.Response.{scan_response_body}
use lockrail.Relay.World.{
  Outside, World, Relay, ReplayStore, UsageStore, Body, no_body, of_json, of_text, Sent, Answer,
  give, on_vault, on_replay, on_usage, on_log, on_wire, ◌>>=◌, ◌>>◌,
}
use lockrail.Vault.Error.{policy_denied}
use lockrail.Vault.Exec.{refused}
use lockrail.Vault.Save.{Io}

-- `collect` of the headers of an answer; a value that is no text is empty.
collect_headers : (to_str : Text → Option Text) → List (Text × Text) → Map Text → Map Text
collect_headers to_str [] m = m
collect_headers to_str ((k, v) ∷ hs) m =
    collect_headers to_str hs (insert m k (get_or (to_str v) []))

pub agent_json : Option AccessProofPayload → Json
agent_json none = Json.null
agent_json (some p) = Json.string p.agent_id

-- What a call meets: the vault's save, and the two writes of the audit log.
pub record Meets : Type 0 where
  pub io : Io
  pub request_log : Audit.Disk
  pub response_log : Audit.Disk

module _ (o : Outside) where
  -- What the audit log is told.
  request_json : RelayRequest → Admission → Json
  unfolding agent_json
  request_json req a = Json.object (
      Fields.field (codes "cap_id") (Json.string (o.uuid a.claims.cap_id)) (
        Fields.field (codes "key") (Json.string a.claims.key) (
          Fields.field (codes "method") (Json.string req.method)
            (Fields.field (codes "proof_agent_id") (agent_json a.proof_payload) Fields.end))))

  response_json : Admission → (receipt_hash : Text) (sealed_count status_code : ℕ) → Json
  response_json a receipt_hash sealed_count status_code = Json.object (
      Fields.field (codes "cap_id") (Json.string (o.uuid a.claims.cap_id)) (
        Fields.field (codes "receipt_hash") (Json.string receipt_hash) (
          Fields.field (codes "sealed_response_secrets") (Json.number (o.decimal sealed_count))
            (Fields.field (codes "status_code") (Json.number (o.decimal status_code)) Fields.end))))

module _ {R U : Type 0} (o : Outside) (replay : ReplayStore R) (usage : UsageStore U)
    (now : ℕ) where
  -- A proof is used up; without one, a capability that requires it is refused.
  pub use_proof :
      CapabilityClaims → (digest : Text) → Option AccessProofPayload → Relay R U (Unit {0})
  use_proof claims digest (some p) = on_replay replay digest p.agent_id p.nonce claims.exp
  use_proof claims digest none =
      give (reject_if claims.require_proof (vault (refused policy_denied)))

  -- What goes out for a checked request: the use is counted and the log is told.
  leaving : Meets → RelayRequest → Admission → Url × List IpAddr → Relay R U Sent
  unfolding request_json
  leaving meets req a checked = do
    count ← on_usage usage (capability_hash o.libs.crypto req.capability) a.claims.max_uses
    headers ← give (inject_secret o now req a.claims a.secret)
    on_log o.audit meets.request_log now (codes "relay.request") checked.0.as_str
        (request_json o req a)
    give (built o now req checked headers)

  -- What goes out for an admitted request.
  pub outgoing : Meets → RelayRequest → (body : Text) → Admission → Relay R U Sent
  unfolding use_proof leaving
  outgoing meets req body a = do
    checked ← give (checked_addrs o now req a.claims body)
    use_proof a.claims (capability_hash o.libs.crypto req.capability) a.proof_payload
    leaving meets req a checked

  -- The answer, sealed, with its receipt.
  pub finish : Meets → Admission → Sent → Answer → Relay R U RelayResponse
  unfolding collect_headers response_json
  finish meets a out answer = do
    raw_text ← give (ok_or answer.text unread)
    safe ←
        give
          (map_err scanner (scan_response_body o.libs.crypto o.libs.entropy_at_least_3_6 raw_text))
    receipt ← give (
        map_err protocol (
          Receipt.new o.libs.crypto o.proof_value o.body_value now a.claims.cap_id a.proof_payload
            out.url.as_str answer.status a.receipt_signer))
    on_log o.audit meets.response_log now (codes "relay.response") out.url.as_str
        (response_json o a receipt.receipt_hash safe.1 answer.status)
    give (
        ok (record {
          status_code = answer.status;
          headers = collect_headers o.to_str answer.headers [];
          body = safe.0;
          lockrail_receipt = receipt;
        }))

  pub perform_relay : Meets → RelayRequest → Relay R U RelayResponse
  unfolding outgoing finish
  perform_relay meets req = do
    body ← give (body_bytes o.to_vec req)
    a ← on_vault (admit o now meets.io req (body_hash o.libs.crypto body))
    out ← outgoing meets req body a
    answer ← on_wire o.send out
    finish meets a out answer

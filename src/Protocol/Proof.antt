-- ===== src/Protocol/Proof.antt =====
-- `AccessProof` of crates/lockrail-protocol/src/lib.rs.
pub mod Accepts
pub mod Skew
pub mod RoundTrip
mod Tests
use lockrail.Prelude.{
  ℕ, Bool, true, false, ◌&&◌, not, Option, ◌++◌, ◌==◌, ltb, ok, err, ◌>>=◌, ◌>>◌, reject_if,
}
use lockrail.Prelude.Int64.{sub, abs, of_nat}
use lockrail.Prelude.Text.{Text, text_eq, option_eq, to_ascii_uppercase}
use lockrail.Protocol.Agent.{AgentKeypairDoc, signing_key}
use lockrail.Protocol.Claims.{lrap_version, is_some}
use lockrail.Protocol.Crypto.{
  Crypto, b64e, canonical, capability_hash, check_signature, verifying_key_from_b64,
}
use lockrail.Protocol.Error.{
  Outcome, proof_version, proof_request_mismatch, proof_skew, proof_task_mismatch,
  proof_purpose_mismatch,
}
use lockrail.Protocol.Json.{Json}
use lockrail.Protocol.Token.{max_proof_skew_seconds}

pub record AccessProofPayload : Type 0 where
  pub version : Text
  pub agent_id : Text
  pub capability_hash : Text
  pub method : Text
  pub upstream : Text
  pub body_hash : Text
  pub nonce : Text
  pub timestamp : ℕ
  pub task_id : Option Text
  pub purpose : Option Text

pub record AccessProof : Type 0 where
  pub payload : AccessProofPayload
  pub signature : Text

-- The derived `PartialEq`.
unfoldable pub payload_eq : AccessProofPayload → AccessProofPayload → Bool
payload_eq p q =
    text_eq p.version q.version
    && (text_eq p.agent_id q.agent_id
        && (text_eq p.capability_hash q.capability_hash
            && (text_eq p.method q.method
                && (text_eq p.upstream q.upstream
                    && (text_eq p.body_hash q.body_hash
                        && (text_eq p.nonce q.nonce
                            && (p.timestamp == q.timestamp
                                && (option_eq p.task_id q.task_id
                                    && option_eq p.purpose q.purpose))))))))

-- `(now_unix() - timestamp).abs()`
unfoldable pub skew : (now timestamp : ℕ) → ℕ
skew now timestamp = abs (sub now timestamp)

-- What the payload must be for this request.
abbrev pub expected :
    Crypto → AccessProofPayload → (capability method upstream body_hash : Text) → AccessProofPayload
expected c p capability method upstream body_hash = record p {
  version = lrap_version;
  capability_hash = capability_hash c capability;
  method = to_ascii_uppercase method;
  upstream = upstream;
  body_hash = body_hash;
}

module _ (c : Crypto) (to_value : AccessProofPayload → Option Json) where
  -- `nonce` is the simple form of a fresh UUID.
  pub sign :
      (nonce : Text) (now : ℕ) (agent : AgentKeypairDoc)
      (capability method upstream body_hash : Text) (task_id purpose : Option Text)
      → Outcome AccessProof
  sign nonce now agent capability method upstream body_hash task_id purpose = do
    let payload : AccessProofPayload = record {
      version = lrap_version;
      agent_id = agent.agent_id;
      capability_hash = capability_hash c capability;
      method = to_ascii_uppercase method;
      upstream = upstream;
      body_hash = body_hash;
      nonce = nonce;
      timestamp = now;
      task_id = task_id;
      purpose = purpose;
    }
    key ← signing_key c agent
    message ← canonical c (to_value payload)
    ok (record { payload = payload; signature = b64e c (c.sign key message) })

  unfoldable pub verify :
      (now : ℕ) (proof : AccessProof) (agent_public_key capability method upstream body_hash : Text)
      (expected_task_id expected_purpose : Option Text)
      → Outcome (Unit {0})
  verify now proof agent_public_key capability method upstream body_hash task purpose = do
    reject_if (not (text_eq proof.payload.version lrap_version)) proof_version
    reject_if
        (not (
          payload_eq proof.payload (expected c proof.payload capability method upstream body_hash)))
        proof_request_mismatch
    reject_if (ltb (of_nat max_proof_skew_seconds) (skew now proof.payload.timestamp)) proof_skew
    reject_if (is_some task && not (option_eq proof.payload.task_id task)) proof_task_mismatch
    reject_if (is_some purpose && not (option_eq proof.payload.purpose purpose))
        proof_purpose_mismatch
    vk ← verifying_key_from_b64 c agent_public_key
    message ← canonical c (to_value proof.payload)
    check_signature c vk message proof.signature

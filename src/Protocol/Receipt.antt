-- ===== src/Protocol/Receipt.antt =====
-- `Receipt` of crates/lockrail-protocol/src/lib.rs.
pub mod Accepts
mod Tests
use lockrail.Prelude.{ℕ, not, Option, none, some, ok, ◌>>=◌, ◌>>◌, reject_if}
use lockrail.Prelude.Text.{Text, codes, text_eq}
use lockrail.Protocol.Claims.{lrap_version}
use lockrail.Protocol.Crypto.{Crypto, b64e, canonical, sha256_hex, check_signature}
use lockrail.Protocol.Error.{Outcome, signature}
use lockrail.Protocol.Json.{Json}
use lockrail.Protocol.Proof.{AccessProofPayload}

pub record ReceiptBody : Type 0 where
  pub version : Text
  pub typ : Text
  pub cap_id : ℕ
  pub proof_hash : Option Text
  pub upstream : Text
  pub status_code : ℕ
  pub issued_at : ℕ

pub record Receipt : Type 0 where
  pub body : ReceiptBody
  pub receipt_hash : Text
  pub signature : Text

module _ (c : Crypto) (proof_value : AccessProofPayload → Option Json)
    (body_value : ReceiptBody → Option Json) where
  pub hash_proof : Option AccessProofPayload → Outcome (Option Text)
  hash_proof none = ok none
  hash_proof (some payload) = do
    bytes ← canonical c (proof_value payload)
    ok (some (sha256_hex c bytes))

  pub body_of :
      (cap_id : ℕ) (proof_hash : Option Text) (upstream : Text) (status_code now : ℕ) → ReceiptBody
  body_of cap_id proof_hash upstream status_code now = record {
    version = lrap_version;
    typ = codes "lockrail.receipt";
    cap_id = cap_id;
    proof_hash = proof_hash;
    upstream = upstream;
    status_code = status_code;
    issued_at = now;
  }

  -- `now` is the clock's value.
  pub new :
      (now cap_id : ℕ) (proof : Option AccessProofPayload) (upstream : Text) (status_code : ℕ)
      (signer : Text)
      → Outcome Receipt
  new now cap_id proof upstream status_code signer = do
    proof_hash ← hash_proof proof
    let body = body_of cap_id proof_hash upstream status_code now
    bytes ← canonical c (body_value body)
    ok (record {
      body = body;
      receipt_hash = sha256_hex c bytes;
      signature = b64e c (c.sign signer bytes);
    })

  pub verify : Receipt → (verifying_key : Text) → Outcome (Unit {0})
  verify receipt verifying_key = do
    bytes ← canonical c (body_value receipt.body)
    reject_if (not (text_eq receipt.receipt_hash (sha256_hex c bytes))) signature
    check_signature c verifying_key bytes receipt.signature

-- ===== src/Protocol/Proof/RoundTrip.antt =====
-- On the proofs that `sign` makes.
use lockrail.Prelude.{
  ℕ, ◌+◌, ◌^◌, ◌≤◌, ◌<◌, ◌≡◌, refl, Option, none, some, arith, ok, ◌>>=◌, length, inl,
}
use lockrail.Prelude.Text.{Text, to_ascii_uppercase}
use lockrail.Protocol.Agent.{AgentKeypairDoc, generate, signing_key}
use lockrail.Protocol.Claims.{lrap_version}
use lockrail.Protocol.Crypto.{Crypto, CryptoLaws, canonical, capability_hash}
use lockrail.Protocol.Crypto.Laws.{b64d-b64e, sign-Signed, verifying_key_from_b64-b64e}
use lockrail.Protocol.Json.{Json}
use lockrail.Protocol.Token.{max_proof_skew_seconds}
use lockrail.Protocol.Proof.{AccessProofPayload, sign, verify}
use lockrail.Protocol.Proof.Accepts.{Agrees, proof_verify_iff}
use lockrail.Protocol.Proof.Skew.{Near, skew_iff}

-- The key of a generated agent is read back.
pub signing_key-generate :
    (c : Crypto) (laws : CryptoLaws c) (signing id : Text) (now : ℕ) (name kind : Text)
    → length signing ≡ 32
    → signing_key c (generate c signing id now name kind) ≡ ok signing
unfolding signing_key generate
signing_key-generate c laws signing id now name kind h = ground (arith, b64d-b64e c laws signing)

Agrees-self : (o : Option Text) → Agrees o o
Agrees-self none = tt
Agrees-self (some t) = refl

module _ (c : Crypto) (laws : CryptoLaws c) (to_value : AccessProofPayload → Option Json)
    (signing id name kind : Text) (created : ℕ) (nonce : Text)
    (capability method upstream body_hash : Text) (task purpose : Option Text) where
  abbrev agent : AgentKeypairDoc
  agent = generate c signing id created name kind

  abbrev payload_at : ℕ → AccessProofPayload
  payload_at now = record {
    version = lrap_version;
    agent_id = agent.agent_id;
    capability_hash = capability_hash c capability;
    method = to_ascii_uppercase method;
    upstream = upstream;
    body_hash = body_hash;
    nonce = nonce;
    timestamp = now;
    task_id = task;
    purpose = purpose;
  }

  -- A proof that an agent with a 32-byte key signs is accepted for the same request within two
  -- minutes of it, at clocks that are two minutes or more from the ends of their type, if its
  -- payload has a JSON text.
  pub proof_verify-sign :
      (signed_at now : ℕ) (message : Text)
      → length signing ≡ 32
      → signed_at < 2 ^ 64
      → max_proof_skew_seconds ≤ now
      → now + max_proof_skew_seconds < 2 ^ 64
      → Near now signed_at
      → canonical c (to_value (payload_at signed_at)) ≡ ok message
      → (sign c to_value nonce signed_at agent capability method upstream body_hash task purpose
          >>= λ proof.
              verify c to_value now proof agent.public_key capability method upstream body_hash task
                purpose)
        ≡ ok tt
  unfolding sign
  proof_verify-sign signed_at now message key fits early late near encoded =
      rw (signing_key-generate c laws signing id created name kind key, encoded)
        ((proof_verify_iff c to_value now _ agent.public_key capability method upstream body_hash
            task purpose).1
          (record {
            version = refl;
            capability_bound = refl;
            method_bound = refl;
            upstream_bound = refl;
            body_bound = refl;
            recent = (skew_iff now signed_at early late fits).1 (inl near);
            task_agrees = Agrees-self task;
            purpose_agrees = Agrees-self purpose;
            vk = c.verifying_key signing;
            message = message;
            known_key = unfold generate in verifying_key_from_b64-b64e c laws signing;
            encoded = encoded;
            signed = sign-Signed c laws signing message;
          }))

-- ===== src/Protocol/Proof/Accepts.antt =====
-- Which proofs `AccessProof::verify` accepts.
use lockrail.Prelude.{
  ℕ, ◌≡◌, ◌↔◌, refl, true, false, not, ◌&&◌, Option, none, some, arith, ok, ltb, Result-cases, inl,
  inr,
}
use lockrail.Prelude.Int64.{of_nat}
use lockrail.Prelude.Text.{
  Text, text_eq_iff, text_eq_refl, option_eq, option_eq_iff, to_ascii_uppercase,
}
use lockrail.Protocol.Claims.{lrap_version, is_some}
use lockrail.Protocol.Crypto.{Crypto, capability_hash, canonical, verifying_key_from_b64}
use lockrail.Protocol.Crypto.Laws.{Signed, check_signature→Signed, Signed→check_signature}
use lockrail.Protocol.Json.{Json}
use lockrail.Protocol.Token.{max_proof_skew_seconds}
use lockrail.Protocol.Proof.{AccessProof, AccessProofPayload, payload_eq, expected, skew, verify}

-- What a wanted task or purpose asks of the payload's.
abbrev pub Agrees : Option Text → Option Text → Type 0
Agrees none given = Unit
Agrees (some wanted) given = given ≡ some wanted

-- The proof is for this capability and request, recent, and signed by the agent.
pub record Proves (c : Crypto) (to_value : AccessProofPayload → Option Json) (now : ℕ)
    (proof : AccessProof) (agent_public_key capability method upstream body_hash : Text)
    (task purpose : Option Text) : Type 0 where
  pub version : proof.payload.version ≡ lrap_version
  pub capability_bound : proof.payload.capability_hash ≡ capability_hash c capability
  pub method_bound : proof.payload.method ≡ to_ascii_uppercase method
  pub upstream_bound : proof.payload.upstream ≡ upstream
  pub body_bound : proof.payload.body_hash ≡ body_hash
  pub recent : ltb (of_nat max_proof_skew_seconds) (skew now proof.payload.timestamp) ≡ false
  pub task_agrees : Agrees task proof.payload.task_id
  pub purpose_agrees : Agrees purpose proof.payload.purpose
  pub vk : Text
  pub message : Text
  pub known_key : verifying_key_from_b64 c agent_public_key ≡ ok vk
  pub encoded : canonical c (to_value proof.payload) ≡ ok message
  pub signed : Signed c vk message proof.signature

Agrees-iff :
    (wanted given : Option Text)
    → ((is_some wanted && not (option_eq given wanted)) ≡ false) ↔ Agrees wanted given
Agrees-iff none given = (λ h. tt, λ h. refl)
Agrees-iff (some w) given = (
  λ h. (option_eq_iff given (some w)).0 (ground arith),
  λ e. let b = (option_eq_iff given (some w)).1 e in rw b,
)

module _ (c : Crypto) (to_value : AccessProofPayload → Option Json) (now : ℕ) (proof : AccessProof)
    (agent_public_key capability method upstream body_hash : Text)
    (task purpose : Option Text) where
  bound_iff :
      (payload_eq proof.payload (expected c proof.payload capability method upstream body_hash)
        ≡ true)
      ↔ ((proof.payload.version ≡ lrap_version)
          × (proof.payload.capability_hash ≡ capability_hash c capability)
          × (proof.payload.method ≡ to_ascii_uppercase method)
          × (proof.payload.upstream ≡ upstream)
          × (proof.payload.body_hash ≡ body_hash))
  unfolding payload_eq
  bound_iff = (
    λ h. (
      (text_eq_iff p.version lrap_version).0 (ground arith),
      (text_eq_iff p.capability_hash (capability_hash c capability)).0 (ground arith),
      (text_eq_iff p.method (to_ascii_uppercase method)).0 (ground arith),
      (text_eq_iff p.upstream upstream).0 (ground arith),
      (text_eq_iff p.body_hash body_hash).0 (ground arith),
    ),
    λ (v, k, m, u, b). ground (
      arith,
      (text_eq_iff p.version lrap_version).1 v,
      (text_eq_iff p.capability_hash (capability_hash c capability)).1 k,
      (text_eq_iff p.method (to_ascii_uppercase method)).1 m,
      (text_eq_iff p.upstream upstream).1 u,
      (text_eq_iff p.body_hash body_hash).1 b,
      text_eq_refl p.agent_id,
      text_eq_refl p.nonce,
      (option_eq_iff p.task_id p.task_id).1 refl,
      (option_eq_iff p.purpose p.purpose).1 refl,
    ),
  )
    where
      open proof use {payload as p}

  verify→Proves :
      verify c to_value now proof agent_public_key capability method upstream body_hash task purpose
        ≡ ok tt
      → Proves c to_value now proof agent_public_key capability method upstream body_hash task
          purpose
  unfolding verify
  verify→Proves h = elim (Result-cases (verifying_key_from_b64 c agent_public_key)) [
    | inr (e, n) ↦ absurd (ground arith)
    | inl (vk, k) ↦ elim (Result-cases (canonical c (to_value proof.payload))) [
      | inr (e, n) ↦ absurd (ground arith)
      | inl (message, m) ↦
          let (v, cap, meth, up, body) = bound_iff.0 (ground arith) in
          record {
            version = v;
            capability_bound = cap;
            method_bound = meth;
            upstream_bound = up;
            body_bound = body;
            recent = ground arith;
            task_agrees = (Agrees-iff task proof.payload.task_id).0 (ground arith);
            purpose_agrees = (Agrees-iff purpose proof.payload.purpose).0 (ground arith);
            vk = vk;
            message = message;
            known_key = k;
            encoded = m;
            signed = check_signature→Signed c vk message proof.signature (ground arith);
          }
    ]
  ]

  Proves→verify :
      Proves c to_value now proof agent_public_key capability method upstream body_hash task purpose
      → verify c to_value now proof agent_public_key capability method upstream body_hash task
          purpose
        ≡ ok tt
  unfolding verify
  Proves→verify p =
      let same = (text_eq_iff proof.payload.version lrap_version).1 p.version in
      let bound =
        bound_iff.1
          (p.version, p.capability_bound, p.method_bound, p.upstream_bound, p.body_bound) in
      let t = (Agrees-iff task proof.payload.task_id).1 p.task_agrees in
      let u = (Agrees-iff purpose proof.payload.purpose).1 p.purpose_agrees in
      let s = Signed→check_signature c p.vk p.message proof.signature p.signed in
      ground (arith, p.recent, p.known_key, p.encoded)

-- A proof is accepted exactly if it proves this request: it is bound to the capability, method,
-- URL and body, recent, for the wanted task and purpose, and signed by the agent's key.
pub proof_verify_iff :
    (c : Crypto) (to_value : AccessProofPayload → Option Json) (now : ℕ) (proof : AccessProof)
    (agent_public_key capability method upstream body_hash : Text) (task purpose : Option Text)
    → (verify c to_value now proof agent_public_key capability method upstream body_hash task
          purpose
        ≡ ok tt)
      ↔ Proves c to_value now proof agent_public_key capability method upstream body_hash task
          purpose
proof_verify_iff c to_value now proof key capability method upstream body task purpose = (
  verify→Proves c to_value now proof key capability method upstream body task purpose,
  Proves→verify c to_value now proof key capability method upstream body task purpose,
)

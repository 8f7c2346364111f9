-- ===== src/Protocol/Receipt/Accepts.antt =====
-- What a receipt vouches for.
use mathlib.Core.Path.{subst}
use lockrail.Prelude.{
  ℕ, ◌≡◌, ◌↔◌, refl, sym, ap, ◌∙◌, Option, none, some, arith, ok, ok_inj, >>=-eq-ok, Result-cases,
  inl, inr,
}
use lockrail.Prelude.Text.{Text, codes, text_eq_iff}
use lockrail.Protocol.Crypto.{Crypto, CryptoLaws, b64e, canonical, sha256_hex}
use lockrail.Protocol.Crypto.Laws.{
  Signed, check_signature→Signed, Signed→check_signature, sign-Signed,
}
use lockrail.Protocol.Json.{Json}
use lockrail.Protocol.Proof.{AccessProofPayload}
use lockrail.Protocol.Receipt.{Receipt, ReceiptBody, hash_proof, body_of, new, verify}

-- The receipt's hash and signature are those of its body's canonical form.
pub record Vouches (c : Crypto) (body_value : ReceiptBody → Option Json) (receipt : Receipt)
    (vk : Text) : Type 0 where
  pub bytes : Text
  pub encoded : canonical c (body_value receipt.body) ≡ ok bytes
  pub hashed : receipt.receipt_hash ≡ sha256_hex c bytes
  pub signed : Signed c vk bytes receipt.signature

module _ (c : Crypto) (proof_value : AccessProofPayload → Option Json)
    (body_value : ReceiptBody → Option Json) where
  verify→Vouches :
      (receipt : Receipt) (vk : Text)
      → verify c proof_value body_value receipt vk ≡ ok tt
      → Vouches c body_value receipt vk
  unfolding verify
  verify→Vouches receipt vk h = elim (Result-cases (canonical c (body_value receipt.body))) [
    | inr (e, n) ↦ absurd (ground arith)
    | inl (bytes, e) ↦ record {
      bytes = bytes;
      encoded = e;
      hashed = (text_eq_iff receipt.receipt_hash (sha256_hex c bytes)).0 (ground arith);
      signed = check_signature→Signed c vk bytes receipt.signature (ground arith);
    }
  ]

  Vouches→verify :
      (receipt : Receipt) (vk : Text)
      → Vouches c body_value receipt vk
      → verify c proof_value body_value receipt vk ≡ ok tt
  unfolding verify
  Vouches→verify receipt vk v =
      let s = Signed→check_signature c vk v.bytes receipt.signature v.signed in
      let h = (text_eq_iff receipt.receipt_hash (sha256_hex c v.bytes)).1 v.hashed in
      ground (arith, v.encoded)

  -- A receipt is accepted exactly if its hash and signature are those of its body.
  pub receipt_verify_iff :
      (receipt : Receipt) (vk : Text)
      → (verify c proof_value body_value receipt vk ≡ ok tt) ↔ Vouches c body_value receipt vk
  receipt_verify_iff receipt vk = (verify→Vouches receipt vk, Vouches→verify receipt vk)

  signs :
      (laws : CryptoLaws c) (body : ReceiptBody) (bytes signer : Text) (receipt : Receipt)
      → canonical c (body_value body) ≡ ok bytes
      → receipt ≡ record {
        body = body;
        receipt_hash = sha256_hex c bytes;
        signature = b64e c (c.sign signer bytes);
      }
      → (receipt.body ≡ body)
        × (verify c proof_value body_value receipt (c.verifying_key signer) ≡ ok tt)
  signs laws body bytes signer receipt encoded e = rw e (
    refl,
    Vouches→verify _ (c.verifying_key signer) (record {
      bytes = bytes;
      encoded = encoded;
      hashed = refl;
      signed = sign-Signed c laws signer bytes;
    }),
  )

  -- The body names the capability, where the request went, how it was answered and when, and
  -- has the hash of the proof's canonical form.
  pub record States (cap_id : ℕ) (proof : Option AccessProofPayload) (upstream : Text)
      (status_code now : ℕ) (body : ReceiptBody) : Type 0 where
    pub version : body.version ≡ codes "LRAP/0.3"
    pub typ : body.typ ≡ codes "lockrail.receipt"
    pub cap_id_is : body.cap_id ≡ cap_id
    pub upstream_is : body.upstream ≡ upstream
    pub status_is : body.status_code ≡ status_code
    pub issued_now : body.issued_at ≡ now
    pub unproven : proof ≡ none → body.proof_hash ≡ none
    pub proven :
        (payload : AccessProofPayload)
        → proof ≡ some payload
        → (bytes : Text) × (canonical c (proof_value payload) ≡ ok bytes)
          × (body.proof_hash ≡ some (sha256_hex c bytes))

  body_of-States :
      (cap_id : ℕ) (proof : Option AccessProofPayload) (upstream : Text) (status_code now : ℕ)
      {proof_hash : Option Text}
      → hash_proof c proof_value body_value proof ≡ ok proof_hash
      → States cap_id proof upstream status_code now
          (body_of c proof_value body_value cap_id proof_hash upstream status_code now)
  unfolding hash_proof body_of
  body_of-States cap_id none upstream status_code now h = record {
    version = refl;
    typ = refl;
    cap_id_is = refl;
    upstream_is = refl;
    status_is = refl;
    issued_now = refl;
    unproven = λ e. sym (ok_inj h);
    proven = λ payload e. cc;
  }
  body_of-States cap_id (some p) upstream status_code now {proof_hash} h =
      let (bytes, e, h₁) = >>=-eq-ok (canonical c (proof_value p)) _ h in
      record {
        version = refl;
        typ = refl;
        cap_id_is = refl;
        upstream_is = refl;
        status_is = refl;
        issued_now = refl;
        unproven = λ e. cc;
        proven = λ payload same. (
          bytes,
          ap (λ (o : Option AccessProofPayload). canonical c (of_payload o)) (sym same) ∙ e,
          sym (ok_inj h₁),
        );
      }
    where
      of_payload : Option AccessProofPayload → Option Json
      of_payload none = none
      of_payload (some payload) = proof_value payload

  -- A receipt that is made states its version and type, the capability, the upstream, the status
  -- and the time, with the hash of the proof's canonical form if there is a proof, and is
  -- accepted under its signer's public key.
  pub verify-new :
      (laws : CryptoLaws c) (now cap_id : ℕ) (proof : Option AccessProofPayload) (upstream : Text)
      (status_code : ℕ) (signer : Text) (receipt : Receipt)
      → new c proof_value body_value now cap_id proof upstream status_code signer ≡ ok receipt
      → States cap_id proof upstream status_code now receipt.body
        × (verify c proof_value body_value receipt (c.verifying_key signer) ≡ ok tt)
  unfolding new
  verify-new laws now cap_id proof upstream status_code signer receipt h =
      elim (Result-cases (hash_proof c proof_value body_value proof)) [
        | inr (e, n) ↦ absurd (ground arith)
        | inl (proof_hash, p) ↦
            let body =
              body_of c proof_value body_value cap_id proof_hash upstream status_code now in
            elim (Result-cases (canonical c (body_value body))) [
              | inr (e, n) ↦ absurd (ground arith)
              | inl (bytes, e) ↦
                  let (same, passes) = signs laws body bytes signer receipt e (ground arith) in
                  (
                    subst (λ b. States cap_id proof upstream status_code now b) (sym same)
                        (body_of-States cap_id proof upstream status_code now p),
                    passes,
                  )
            ]
      ]

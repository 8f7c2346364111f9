-- ===== src/Vault/Envelope/RoundTrip.antt =====
-- What `open_bytes` reads from the text that `seal_data` builds.
use lockrail.Prelude.{ℕ, ◌≡◌, refl, some, ok, ok_or, length, >>=-eq-ok, ok_or-eq-ok}
use lockrail.Prelude.Text.{Text}
use lockrail.Protocol.Crypto.{CryptoLaws, b64e}
use lockrail.Protocol.Json.{Json}
use lockrail.Vault.Document.{KdfParamsDoc, VaultEnvelope, VaultData, vault_version}
use lockrail.Vault.Envelope.{seal_data, open_bytes, migrate}
use lockrail.Vault.Libraries.{Libraries}
use lockrail.Vault.Error.{json, crypto}

-- AES-GCM decrypts what it encrypted, and serde_json reads back the envelope that it wrote.
pub record LibraryLaws (libs : Libraries) : Type 0 where
  pub base64 : CryptoLaws libs.crypto
  pub decrypt-encrypt :
      (key nonce aad message : Text) {c : Text}
      → libs.encrypt key nonce aad message ≡ some c
      → libs.decrypt key nonce aad c ≡ some message
  pub envelope_from_slice-envelope_to_vec_pretty :
      (e : VaultEnvelope) {t : Text}
      → libs.envelope_to_vec_pretty e ≡ some t
      → libs.envelope_from_slice t ≡ some e

-- serde_json reads back the data that it wrote, first as a value and then as data.
pub record ReadsBack (libs : Libraries) (d : VaultData) : Type 0 where
  pub value :
      {t : Text}
      → libs.data_to_vec d ≡ some t
      → (j : Json) × (libs.value_from_slice t ≡ some j) × (libs.data_from_value j ≡ some d)

module _ (libs : Libraries) (laws : LibraryLaws libs) (now : ℕ) (password : Text)
    (kdf : KdfParamsDoc) (d : VaultData) (salt nonce : Text) (twelve : length nonce ≡ 12) where
  made : Text → VaultEnvelope
  made ciphertext = record {
    version = vault_version;
    kdf = kdf;
    salt = b64e libs.crypto salt;
    nonce = b64e libs.crypto nonce;
    ciphertext = b64e libs.crypto ciphertext;
  }

  -- Reading, step by step.
  reading :
      (key aad plaintext ciphertext : Text) (j : Json) {t : Text}
      → libs.argon2 password salt kdf ≡ some key
      → libs.aad vault_version kdf (b64e libs.crypto salt) ≡ some aad
      → libs.encrypt key nonce aad plaintext ≡ some ciphertext
      → libs.envelope_to_vec_pretty (made ciphertext) ≡ some t
      → libs.value_from_slice plaintext ≡ some j
      → libs.data_from_value j ≡ some d
      → open_bytes libs now password t ≡ ok (kdf, d)
  unfolding made open_bytes migrate b64e
  reading key aad plaintext ciphertext j k a c e v r =
      rw
        (
          laws.envelope_from_slice-envelope_to_vec_pretty (made ciphertext) e,
          laws.base64.decode-encode salt,
          laws.base64.decode-encode nonce,
          laws.base64.decode-encode ciphertext,
          k,
          a,
          twelve,
          laws.decrypt-encrypt key nonce aad plaintext c,
          v,
          r,
        )
        refl

  pub open_bytes-seal_data :
      {t : Text}
      → ReadsBack libs d
      → seal_data libs password kdf d salt nonce ≡ ok t
      → open_bytes libs now password t ≡ ok (kdf, d)
  unfolding seal_data made
  open_bytes-seal_data reads done =
      let (key, k, s₁) = >>=-eq-ok (ok_or (libs.argon2 password salt kdf) crypto) _ done in
      let (aad, a, s₂) =
        >>=-eq-ok (ok_or (libs.aad vault_version kdf (b64e libs.crypto salt)) json) _ s₁ in
      let (plaintext, p, s₃) = >>=-eq-ok (ok_or (libs.data_to_vec d) json) _ s₂ in
      let (ciphertext, c, s₄) =
        >>=-eq-ok (ok_or (libs.encrypt key nonce aad plaintext) crypto) _ s₃ in
      let (j, v, r) = reads.value (ok_or-eq-ok (libs.data_to_vec d) json p) in
      reading key aad plaintext ciphertext j (ok_or-eq-ok (libs.argon2 password salt kdf) crypto k)
        (ok_or-eq-ok (libs.aad vault_version kdf (b64e libs.crypto salt)) json a)
        (ok_or-eq-ok (libs.encrypt key nonce aad plaintext) crypto c)
        (ok_or-eq-ok (libs.envelope_to_vec_pretty (made ciphertext)) json s₄) v r

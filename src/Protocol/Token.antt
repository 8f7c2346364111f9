-- ===== src/Protocol/Token.antt =====
-- `CapabilityToken` of crates/lockrail-protocol/src/lib.rs.
pub mod Accepts
pub mod Issued
mod Tests
use lockrail.Prelude.{
  ℕ, Bool, ◌||◌, not, Option, List, [], ◌∷◌, ◌++◌, ◌==◌, ltb, any, ok, err, ◌>>=◌, ◌>>◌, ok_or,
  reject_if,
}
use lockrail.Prelude.Int64.{add, of_nat}
use lockrail.Prelude.Text.{Text, codes, text_eq, split}
use lockrail.Protocol.Error.{
  Outcome, json, malformed_token, unsupported_token_prefix, audience_mismatch,
  capability_issued_in_future, capability_not_yet_valid, capability_expired, capability_revoked,
}
use lockrail.Protocol.Claims.{CapabilityClaims, default_audience}
use lockrail.Protocol.Crypto.{Crypto, b64e, b64d, canonical, check_signature}
use lockrail.Protocol.Json.{Json}

pub record CapabilityToken : Type 0 where
  pub claims : CapabilityClaims
  pub signature : Text

abbrev pub token_prefix : Text
token_prefix = codes "lrap3"

abbrev pub max_proof_skew_seconds : ℕ
max_proof_skew_seconds = 120

-- serde's translation of the claims, there and back.
pub record ClaimsCodec : Type 0 where
  pub to_value : CapabilityClaims → Option Json
  pub from_slice : Text → Option CapabilityClaims

module _ (c : Crypto) (codec : ClaimsCodec) where
  unfoldable pub issue : CapabilityClaims → (issuer : Text) → Outcome Text
  issue claims issuer = do
    payload ← canonical c (codec.to_value claims)
    ok (token_prefix ++ (b'.' ∷ (b64e c payload ++ (b'.' ∷ b64e c (c.sign issuer payload)))))

  -- The tests on the claims, at the clock's value `now`.
  unfoldable pub check_claims : (now : ℕ) (revoked : List ℕ) → CapabilityClaims → Outcome (Unit {0})
  check_claims now revoked claims = do
    reject_if (not (text_eq claims.aud default_audience)) audience_mismatch
    reject_if (ltb (add now (of_nat max_proof_skew_seconds)) claims.iat) capability_issued_in_future
    reject_if (ltb now claims.nbf) capability_not_yet_valid
    reject_if (ltb claims.exp now) capability_expired
    reject_if (claims.revoked || any (λ id. id == claims.cap_id) revoked) capability_revoked

  unfoldable pub verify_parts :
      (now : ℕ) (issuer_public : Text) (revoked : List ℕ) → List Text → Outcome CapabilityToken
  verify_parts now issuer_public revoked (prefix ∷ body ∷ sig ∷ []) = do
    reject_if (not (text_eq prefix token_prefix)) unsupported_token_prefix
    payload ← b64d c body
    check_signature c issuer_public payload sig
    claims ← ok_or (codec.from_slice payload) json
    check_claims now revoked claims
    ok (record { claims = claims; signature = sig })
  verify_parts now issuer_public revoked _ = err malformed_token

  unfoldable pub verify :
      (now : ℕ) (token issuer_public : Text) (revoked : List ℕ) → Outcome CapabilityToken
  verify now token issuer_public revoked = verify_parts now issuer_public revoked (split token b'.')

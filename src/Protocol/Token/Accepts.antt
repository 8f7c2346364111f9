-- ===== src/Protocol/Token/Accepts.antt =====
-- Which tokens `CapabilityToken::verify` accepts.
use lockrail.Prelude.{
  ℕ, ◌+◌, ◌^◌, ◌≤◌, ◌<◌, ◌≡◌, ◌↔◌, refl, ap, false, some, List, [], ◌∷◌, arith, ok, any, Member,
  ◌==◌, Option-cases, Bool-cases, inl, inr,
}
use lockrail.Prelude.Membership.{any-number_iff}
use lockrail.Prelude.Text.{Text, text_eq_iff, text_eq_refl, split}
use lockrail.Protocol.Claims.{CapabilityClaims, default_audience}
use lockrail.Protocol.Crypto.{Crypto, b64d, check_signature}
use lockrail.Protocol.Crypto.Laws.{Signed, check_signature→Signed, Signed→check_signature}
use lockrail.Protocol.Token.{
  CapabilityToken, ClaimsCodec, token_prefix, max_proof_skew_seconds, check_claims, verify_parts,
  verify,
}

-- The claims are for this relay, in force at the clock's value and not revoked. Times compare as
-- the integers that they stand for.
pub record ValidAt (now : ℕ) (revoked : List ℕ) (claims : CapabilityClaims) : Type 0 where
  pub audience : claims.aud ≡ default_audience
  pub issued : claims.iat ≤ now + max_proof_skew_seconds
  pub begun : claims.nbf ≤ now
  pub running : now ≤ claims.exp
  pub in_force : claims.revoked ≡ false
  pub listed_nowhere : ¬ Member claims.cap_id revoked

-- The clock is not within two minutes of the end of the type i64.
abbrev pub ClockFits : ℕ → Type 0
ClockFits now = now + max_proof_skew_seconds < 2 ^ 64

module _ (c : Crypto) (codec : ClaimsCodec) (now : ℕ) (revoked : List ℕ) (claims : CapabilityClaims)
    (fits : ClockFits now) where
  check→ValidAt : check_claims c codec now revoked claims ≡ ok tt → ValidAt now revoked claims
  unfolding check_claims
  check→ValidAt h = record {
    audience = (text_eq_iff claims.aud default_audience).0 (ground arith);
    issued = ground arith;
    begun = ground arith;
    running = ground arith;
    in_force = ground arith;
    listed_nowhere =
        λ m. let hit = (any-number_iff claims.cap_id revoked).1 m in absurd (ground arith);
  }

  ValidAt→check : ValidAt now revoked claims → check_claims c codec now revoked claims ≡ ok tt
  unfolding check_claims
  ValidAt→check v = elim (Bool-cases (any (λ id. id == claims.cap_id) revoked)) [
    | inl hit ↦ absurd (v.listed_nowhere ((any-number_iff claims.cap_id revoked).0 hit))
    | inr miss ↦ ground (arith, (text_eq_iff claims.aud default_audience).1 v.audience)
  ]

-- The token is signed by the issuer, and its claims are valid.
pub record Accepts (c : Crypto) (codec : ClaimsCodec) (now : ℕ) (text issuer_public : Text)
    (revoked : List ℕ) (token : CapabilityToken) : Type 0 where
  pub body : Text
  pub payload : Text
  pub parts : split text b'.' ≡ token_prefix ∷ body ∷ token.signature ∷ []
  pub decoded : c.b64_decode body ≡ some payload
  pub signed : Signed c issuer_public payload token.signature
  pub parsed : codec.from_slice payload ≡ some token.claims
  pub valid : ValidAt now revoked token.claims

module _ (c : Crypto) (codec : ClaimsCodec) (now : ℕ) (issuer_public : Text) (revoked : List ℕ)
    (token : CapabilityToken) (fits : ClockFits now) where
  -- An accepted token has three parts.
  three_parts :
      (parts : List Text)
      → verify_parts c codec now issuer_public revoked parts ≡ ok token
      → (prefix body sig : Text) × (parts ≡ prefix ∷ body ∷ sig ∷ [])
  unfolding verify_parts
  three_parts [] h = cc
  three_parts (p ∷ []) h = cc
  three_parts (p ∷ q ∷ []) h = cc
  three_parts (p ∷ q ∷ r ∷ []) h = (p, q, r, refl)
  three_parts (p ∷ q ∷ r ∷ s ∷ ps) h = cc

  parts→Accepts :
      (text prefix body sig : Text)
      → split text b'.' ≡ prefix ∷ body ∷ sig ∷ []
      → verify_parts c codec now issuer_public revoked (prefix ∷ body ∷ sig ∷ []) ≡ ok token
      → Accepts c codec now text issuer_public revoked token
  unfolding verify_parts b64d
  parts→Accepts text prefix body sig e h = elim (Option-cases (c.b64_decode body)) [
    | inl n ↦ absurd (ground arith)
    | inr (payload, d) ↦ elim (Option-cases (codec.from_slice payload)) [
      | inl n ↦ absurd (ground arith)
      | inr (claims, f) ↦
          let same : record { claims = claims; signature = sig } ≡ token = ground arith in
          let k : prefix ≡ token_prefix = (text_eq_iff prefix token_prefix).0 (ground arith) in
          let u : sig ≡ token.signature = ap (λ t. t.signature) same in
          let w : claims ≡ token.claims = ap (λ t. t.claims) same in
          let s : check_signature c issuer_public payload sig ≡ ok tt = ground arith in
          let v : check_claims c codec now revoked claims ≡ ok tt = ground arith in
          record {
            body = body;
            payload = payload;
            parts = rw (← u, ← k) e;
            decoded = d;
            signed = rw (← u) (check_signature→Signed c issuer_public payload sig s);
            parsed = rw (← w) f;
            valid = rw (← w) (check→ValidAt c codec now revoked claims fits v);
          }
    ]
  ]

  verify→Accepts :
      (text : Text)
      → verify c codec now text issuer_public revoked ≡ ok token
      → Accepts c codec now text issuer_public revoked token
  unfolding verify
  verify→Accepts text h =
      let (prefix, body, sig, e) = three_parts (split text b'.') h in
      parts→Accepts text prefix body sig e (rw e at h)

  Accepts→verify :
      (text : Text)
      → Accepts c codec now text issuer_public revoked token
      → verify c codec now text issuer_public revoked ≡ ok token
  unfolding verify verify_parts b64d
  Accepts→verify text a =
      let s = Signed→check_signature c issuer_public a.payload token.signature a.signed in
      let v = ValidAt→check c codec now revoked token.claims fits a.valid in
      let t = text_eq_refl token_prefix in rw (a.parts) (ground arith)

-- At a clock that is two minutes or more from the end of the type i64, a token is accepted
-- exactly if it is in form, signed by the issuer, and its claims are for this relay, in force and
-- not revoked.
pub token_verify_iff :
    (c : Crypto) (codec : ClaimsCodec) (now : ℕ) (text issuer_public : Text) (revoked : List ℕ)
    (token : CapabilityToken)
    → ClockFits now
    → (verify c codec now text issuer_public revoked ≡ ok token)
      ↔ Accepts c codec now text issuer_public revoked token
token_verify_iff c codec now text issuer_public revoked token fits = (
  verify→Accepts c codec now issuer_public revoked token fits text,
  Accepts→verify c codec now issuer_public revoked token fits text,
)

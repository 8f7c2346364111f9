-- ===== src/Protocol/Token/Issued.antt =====
-- On the tokens that `issue` makes, and the claims of a new capability.
use lockrail.Prelude.{
  ℕ, ◌+◌, ◌*◌, ◌^◌, ◌≤◌, ◌<◌, ◌≡◌, ◌↔◌, refl, ◌∙◌, Option, some, List, [], ◌∷◌, ◌++◌, arith, ok,
  ◌>>=◌, Member,
}
use lockrail.Prelude.Int64.{of_nat}
use lockrail.Prelude.Text.{Text, split}
use lockrail.Prelude.Text.Split.{Lacks, split-append, split-Lacks}
use lockrail.Protocol.Claims.{CapabilityClaims, new}
use lockrail.Protocol.Crypto.{Crypto, CryptoLaws, b64e, canonical}
use lockrail.Protocol.Crypto.Laws.{sign-Signed}
use lockrail.Protocol.Token.{ClaimsCodec, token_prefix, issue, verify}
use lockrail.Protocol.Token.Accepts.{ValidAt, ClockFits, token_verify_iff}

-- The three parts of a token that is put together.
split_token :
    (a b : Text)
    → Lacks b'.' a
    → Lacks b'.' b
    → split (token_prefix ++ (b'.' ∷ (a ++ (b'.' ∷ b)))) b'.' ≡ token_prefix ∷ a ∷ b ∷ []
split_token a b la lb =
    split-append token_prefix (a ++ (b'.' ∷ b)) b'.' (omega arith)
    ∙ rw (split-append a b b'.' la, split-Lacks b b'.' lb)

module _ (c : Crypto) (codec : ClaimsCodec) (laws : CryptoLaws c) where
  -- A token issued for claims is verified to these claims, if their JSON text is read back as
  -- them, the clock is two minutes or more from the end of its type, and they are valid at it.
  pub verify-issue :
      (claims : CapabilityClaims) (issuer payload : Text) (now : ℕ) (revoked : List ℕ)
      → canonical c (codec.to_value claims) ≡ ok payload
      → codec.from_slice payload ≡ some claims
      → ClockFits now
      → ValidAt now revoked claims
      → (issue c codec claims issuer >>= λ token.
          verify c codec now token (c.verifying_key issuer) revoked)
        ≡ ok (record { claims = claims; signature = b64e c (c.sign issuer payload) })
  unfolding issue
  verify-issue claims issuer payload now revoked encoded decoded fits valid = rw (encoded) (
      (token_verify_iff c codec now _ (c.verifying_key issuer) revoked _ fits).1 (record {
        body = b64e c payload;
        payload = payload;
        parts =
            split_token (b64e c payload) (b64e c (c.sign issuer payload)) (dotless payload)
              (dotless (c.sign issuer payload));
        decoded = unfold b64e in laws.decode-encode payload;
        signed = sign-Signed c laws issuer payload;
        parsed = decoded;
        valid = valid;
      }))
    where
      dotless : (x : Text) → Lacks b'.' (b64e c x)
      dotless x = unfold b64e in laws.encode-Lacks x

-- The claims of a new capability that is not revoked, with an end below 2^64 and minutes below
-- 2^57, are valid exactly from their creation until so many minutes later.
pub new-ValidAt_iff :
    (created now minutes cap_id : ℕ) (key : Text) (hosts methods paths : List Text)
    (header prefix : Text) (uses : Option ℕ) (agent task purpose : Option Text) (revoked : List ℕ)
    → created + minutes * 60 < 2 ^ 64
    → minutes < 2 ^ 57
    → ¬ Member cap_id revoked
    → ValidAt now revoked (
        new created cap_id key
          (of_nat minutes)
          hosts
          methods
          paths
          header
          prefix
          uses
          agent
          task
          purpose)
      ↔ ((created ≤ now) × (now ≤ created + minutes * 60))
unfolding new
new-ValidAt_iff created now minutes cap_id key hosts methods paths header prefix uses agent task
      purpose revoked fits few fresh =
    (
      λ v. omega arith,
      λ (b, r). record {
        audience = refl;
        issued = omega arith;
        begun = b;
        running = omega arith;
        in_force = refl;
        listed_nowhere = fresh;
      },
    )

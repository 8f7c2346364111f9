-- ===== src/Protocol/Token/Tests.antt =====
-- Examples of tokens.
use lockrail.Prelude.{◌≡◌, ◌↔◌, refl, [], ◌∷◌, arith, ok, ◌>>=◌}
use lockrail.Prelude.Int64.{of_nat}
use lockrail.Prelude.Text.{codes}
use lockrail.Protocol.Claims.{new}
use lockrail.Protocol.Crypto.{canonical, b64e}
use lockrail.Protocol.Samples.{toy, toy-laws, claims, claims_codec}
use lockrail.Protocol.Token.{CapabilityToken, issue, verify}
use lockrail.Protocol.Token.Accepts.{Accepts, ValidAt, token_verify_iff}
use lockrail.Protocol.Token.Issued.{verify-issue}

abbrev token : CapabilityToken
token = record { claims = claims; signature = codes "sig" }

token_verify_iff_example :
    (verify toy claims_codec (of_nat 1010) (codes "lrap3.body.sig") (codes "issuer") (8 ∷ [])
      ≡ ok token)
    ↔ Accepts toy claims_codec
        (of_nat 1010)
        (codes "lrap3.body.sig")
        (codes "issuer")
        (8 ∷ [])
        token
token_verify_iff_example =
    token_verify_iff toy claims_codec (of_nat 1010) (codes "lrap3.body.sig") (codes "issuer")
      (8 ∷ []) token (omega arith)

valid : ValidAt (of_nat 1010) [] claims
unfolding new
valid = record {
  audience = refl;
  issued = omega arith;
  begun = omega arith;
  running = omega arith;
  in_force = refl;
  listed_nowhere = λ m. m;
}

encoded : canonical toy (claims_codec.to_value claims) ≡ ok (codes "{}")
unfolding canonical
encoded = refl

verify-issue_example :
    (issue toy claims_codec claims (codes "issuer") >>= λ text.
    verify toy claims_codec (of_nat 1010) text (toy.verifying_key (codes "issuer")) [])
    ≡ ok (record { claims = claims; signature = b64e toy (toy.sign (codes "issuer") (codes "{}")) })
verify-issue_example =
    verify-issue toy claims_codec toy-laws claims (codes "issuer") (codes "{}") (of_nat 1010) []
      encoded refl (omega arith) valid

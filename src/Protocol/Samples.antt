-- ===== src/Protocol/Samples.antt =====
-- Concrete inputs for the examples: a cipher that shifts bytes, claims, and URLs.
use lockrail.Prelude.{zero, suc, ℕ, ◌+◌, ◌-◌, ◌≡◌, refl, ap, Option, none, some, [], ◌∷◌, arith}
use lockrail.Prelude.Int64.{of_nat}
use lockrail.Prelude.Text.{Text, codes, text_eq}
use lockrail.Prelude.Text.Split.{Lacks}
use lockrail.Protocol.Claims.{CapabilityClaims, new}
use lockrail.Protocol.Crypto.{Crypto, CryptoLaws}
use lockrail.Protocol.Json.{Json, Fields}
use lockrail.Protocol.Net.Addr.{Host}
use lockrail.Protocol.Proof.{AccessProofPayload}
use lockrail.Protocol.Receipt.{ReceiptBody}
use lockrail.Protocol.Token.{ClaimsCodec}
use lockrail.Protocol.Url.{Url, UrlCrate}

abbrev zeros : ℕ → Text
zeros zero = []
zeros (suc n) = 0 ∷ zeros n

abbrev pub up : Text → Text
up [] = []
up (c ∷ s) = (c + 100) ∷ up s

abbrev pub down : Text → Text
down [] = []
down (c ∷ s) = (c - 100) ∷ down s

abbrev pub toy : Crypto
toy = record {
  sha256 = λ x. up x;
  b64_encode = λ x. up x;
  b64_decode = λ x. some (down x);
  verifying_key = λ k. zeros 32;
  decode_key = λ k. some k;
  sign = λ k m. zeros 64;
  verify = λ vk m s. text_eq s (zeros 64);
  to_vec = λ j. some (codes "{}");
  map_insert = λ k v m. Fields.field k v m;
}

down-up : (s : Text) → down (up s) ≡ s
down-up [] = refl
down-up (c ∷ s) = rw (down-up s) (ap (λ d. d ∷ s) (omega arith))

up-Lacks : (s : Text) → Lacks b'.' (up s)
up-Lacks [] = tt
up-Lacks (c ∷ s) = (λ e. omega arith, up-Lacks s)

pub toy-laws : CryptoLaws toy
unfolding text_eq
toy-laws = record {
  decode-encode = λ x. ap some (down-up x);
  encode-Lacks = up-Lacks;
  length-sign = λ k m. refl;
  verify-sign = λ k m. refl;
  length-verifying_key = λ k. refl;
  decode_key-verifying_key = λ k. refl;
}

-- Created at 1000 for five minutes.
abbrev pub claims : CapabilityClaims
claims =
    new (of_nat 1000) 7 (codes "API_KEY") (of_nat 5) (codes "*.example.com" ∷ []) (codes "get" ∷ [])
      (codes "/v1/*" ∷ []) (codes "Authorization") (codes "Bearer ") (some 3) none none none

abbrev pub claims_codec : ClaimsCodec
claims_codec = record { to_value = λ x. some Json.null; from_slice = λ s. some claims }

abbrev pub payload_value : AccessProofPayload → Option Json
payload_value p = some Json.null

abbrev pub body_value : ReceiptBody → Option Json
body_value b = some Json.null

abbrev pub url : Url
url = record {
  as_str = codes "https://api.example.com/v1/models";
  scheme = codes "https";
  username = [];
  password = none;
  host = some (Host.domain (codes "api.example.com"));
  host_str = some (codes "api.example.com");
  port_or_known_default = some 443;
  path = codes "/v1/models";
  query = none;
}

abbrev pub url_crate : UrlCrate
url_crate = record { parse = λ s. some url; display_host = λ h. [] }

-- ===== src/Protocol/Crypto.antt =====
-- The libraries that `lockrail-protocol` calls for cryptography and encodings, as parameters:
-- ed25519-dalek, sha2 with hex, base64ct and serde_json; and the helpers of
-- crates/lockrail-protocol/src/lib.rs over them. A key is its 32 bytes.
pub mod Laws
use lockrail.Prelude.{
  ℕ, ◌≡◌, Bool, true, Option, none, some, ◌++◌, ok, ◌>>=◌, ◌>>◌, ok_or, length, ◌==◌, not,
  reject_if,
}
use lockrail.Prelude.Text.{Text, codes}
use lockrail.Prelude.Text.Split.{Lacks}
use lockrail.Protocol.Error.{ProtocolError, Outcome, base64, json, signature, key}
use lockrail.Protocol.Json.{Json, Fields, canonical_json_value}

pub record Crypto : Type 0 where
  pub sha256 : Text → Text
  pub b64_encode : Text → Text
  pub b64_decode : Text → Option Text
  pub verifying_key : Text → Text
  pub decode_key : Text → Option Text
  pub sign : Text → Text → Text
  pub verify : Text → Text → Text → Bool
  pub to_vec : Json → Option Text
  pub map_insert : Text → Json → Fields → Fields

-- Base64url has no dot in its alphabet and is decoded to what was encoded; a signature has 64
-- bytes and is accepted under the key of its signer; a public key has 32 bytes and is valid.
pub record CryptoLaws (c : Crypto) : Type 0 where
  pub decode-encode : (x : Text) → c.b64_decode (c.b64_encode x) ≡ some x
  pub encode-Lacks : (x : Text) → Lacks b'.' (c.b64_encode x)
  pub length-sign : (k m : Text) → length (c.sign k m) ≡ 64
  pub verify-sign : (k m : Text) → c.verify (c.verifying_key k) m (c.sign k m) ≡ true
  pub length-verifying_key : (k : Text) → length (c.verifying_key k) ≡ 32
  pub decode_key-verifying_key :
      (k : Text) → c.decode_key (c.verifying_key k) ≡ some (c.verifying_key k)

module _ (c : Crypto) where
  unfoldable pub b64e : Text → Text
  b64e bytes = c.b64_encode bytes

  unfoldable pub b64d : Text → Outcome Text
  b64d s = ok_or (c.b64_decode s) base64

  -- The digest's text in hexadecimal behind its algorithm's name.
  pub sha256_hex : Text → Text
  sha256_hex bytes = codes "sha256:" ++ c.sha256 bytes

  unfoldable pub capability_hash : Text → Text
  unfolding sha256_hex
  capability_hash token = sha256_hex token

  unfoldable pub body_hash : Text → Text
  unfolding sha256_hex
  body_hash body = sha256_hex body

  -- The argument is what `serde_json::to_value` returns.
  unfoldable pub canonical : Option Json → Outcome Text
  canonical value = do
    j ← ok_or value json
    ok_or (c.to_vec (canonical_json_value c.map_insert j)) json

  -- `try_into()` to an array of 64 bytes, then `verify`, both with the same error.
  unfoldable pub check_signature : (verifying message : Text) → Text → Outcome (Unit {0})
  check_signature verifying message encoded = do
    bytes ← b64d encoded
    reject_if (not (length bytes == 64)) signature
    reject_if (not (c.verify verifying message bytes)) signature

  unfoldable pub verifying_key_from_b64 : Text → Outcome Text
  verifying_key_from_b64 public_key = do
    raw ← b64d public_key
    reject_if (not (length raw == 32)) key
    ok_or (c.decode_key raw) key

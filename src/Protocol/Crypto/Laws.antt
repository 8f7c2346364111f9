-- ===== src/Protocol/Crypto/Laws.antt =====
-- Laws of the helpers over the cryptographic libraries.
use lockrail.Prelude.{◌≡◌, true, some, arith, ok, length, Option-cases, inl, inr}
use lockrail.Prelude.Text.{Text}
use lockrail.Protocol.Crypto.{
  Crypto, CryptoLaws, b64e, b64d, check_signature, verifying_key_from_b64,
}

-- The text decodes to a signature of 64 bytes that the key accepts for the message.
pub record Signed (c : Crypto) (verifying message encoded : Text) : Type 0 where
  pub bytes : Text
  pub decoded : c.b64_decode encoded ≡ some bytes
  pub full : length bytes ≡ 64
  pub accepted : c.verify verifying message bytes ≡ true

module _ (c : Crypto) (verifying message encoded : Text) where
  pub check_signature→Signed :
      check_signature c verifying message encoded ≡ ok tt → Signed c verifying message encoded
  unfolding check_signature b64d
  check_signature→Signed h = elim (Option-cases (c.b64_decode encoded)) [
    | inl e ↦ absurd (ground arith)
    | inr (bytes, e) ↦ record {
      bytes = bytes;
      decoded = e;
      full = ground arith;
      accepted = ground arith;
    }
  ]

  pub Signed→check_signature :
      Signed c verifying message encoded → check_signature c verifying message encoded ≡ ok tt
  unfolding check_signature b64d
  Signed→check_signature s = ground arith

-- What is signed with a key passes under its public key.
pub sign-Signed :
    (c : Crypto) (laws : CryptoLaws c) (k m : Text)
    → Signed c (c.verifying_key k) m (b64e c (c.sign k m))
unfolding b64e
sign-Signed c laws k m = record {
  bytes = c.sign k m;
  decoded = laws.decode-encode (c.sign k m);
  full = laws.length-sign k m;
  accepted = laws.verify-sign k m;
}

pub b64d-b64e : (c : Crypto) (laws : CryptoLaws c) (x : Text) → b64d c (b64e c x) ≡ ok x
unfolding b64d b64e
b64d-b64e c laws x = rw (laws.decode-encode x)

-- An encoded public key is read back.
pub verifying_key_from_b64-b64e :
    (c : Crypto) (laws : CryptoLaws c) (k : Text)
    → verifying_key_from_b64 c (b64e c (c.verifying_key k)) ≡ ok (c.verifying_key k)
unfolding verifying_key_from_b64
verifying_key_from_b64-b64e c laws k = ground (
  arith,
  b64d-b64e c laws (c.verifying_key k),
  laws.length-verifying_key k,
  laws.decode_key-verifying_key k,
)

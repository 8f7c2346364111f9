-- ===== src/Vault/Libraries.antt =====
-- What the vault calls outside the repository, as parameters: Argon2, AES-GCM, serde_json.
use lockrail.Prelude.{ℕ, Bool, Option, List}
use lockrail.Prelude.Text.{Text}
use lockrail.Protocol.Crypto.{Crypto}
use lockrail.Protocol.Json.{Json}
use lockrail.Vault.Document.{KdfParamsDoc, VaultEnvelope, VaultData, SecretRecord}

-- `entropy_at_least_3_6` is the test of the scanner in seal.rs. `decrypt` and `encrypt` take the
-- key, the nonce, the additional data and the message. `aad` is the text in JSON of the version, the
-- parameters and the salt.
pub record Libraries : Type 0 where
  pub crypto : Crypto
  pub entropy_at_least_3_6 : Text → Bool
  pub argon2 : (password salt : Text) → KdfParamsDoc → Option Text
  pub encrypt : (key nonce aad message : Text) → Option Text
  pub decrypt : (key nonce aad ciphertext : Text) → Option Text
  pub aad : (version : ℕ) → KdfParamsDoc → (salt : Text) → Option Text
  pub data_to_vec : VaultData → Option Text
  pub value_from_slice : Text → Option Json
  pub data_from_value : Json → Option VaultData
  pub envelope_to_vec_pretty : VaultEnvelope → Option Text
  pub envelope_from_slice : Text → Option VaultEnvelope
  pub number_as_i64 : Text → Option ℕ
  pub capabilities_from_value : Json → Option (List ℕ)
  pub usage_from_value : Json → Option (List (ℕ × ℕ))
  pub record_from_value : Json → Option SecretRecord

-- ===== src/Vault/Envelope.antt =====
-- The text of a vault on the disk: what `Vault::save` builds and `Vault::open` reads, and
-- `legacy_to_v2`, of crates/lockrail-vault/src/lib.rs. The key that Argon2 derives has 32 bytes, so
-- that AES-GCM takes it. `now` is the clock's value, read once in a call.
pub mod RoundTrip
use lockrail.Prelude.{
  ℕ, Bool, true, false, not, Option, none, some, List, [], ◌∷◌, length, ◌==◌, if◌then◌else◌, Result,
  ok, err, ok_or, reject_if, map_err, ◌>>=◌, ◌>>◌,
}
use lockrail.Prelude.Map.{Map, insert}
use lockrail.Prelude.Text.{Text, codes, text_eq}
use mathlib.Core.Option.{get_or}
use lockrail.Protocol.Crypto.{b64e}
use lockrail.Protocol.Json.{Json, Fields, Items}
use lockrail.Protocol.Seal.Step.{Stop, panicked}
use lockrail.Vault.Document.{KdfParamsDoc, VaultEnvelope, SecretRecord, VaultData, vault_version}
use lockrail.Vault.Error.{VaultError, json, crypto, wrong_password, version}
use lockrail.Vault.Exec.{Failure, refused, stopped}
use lockrail.Vault.Libraries.{Libraries}
use lockrail.Vault.Names.{from_vault, from_scan, secret_metadata}

-- `value.get(key)`
get_field : Fields → Text → Option Json
get_field Fields.end k = none
get_field (Fields.field j v fs) k = if text_eq j k then some v else get_field fs k

unfoldable pub json_get : Json → Text → Option Json
unfolding get_field
json_get (Json.object fs) k = get_field fs k
json_get j k = none

as_str : Option Json → Text
as_str (some (Json.string s)) = s
as_str o = []

-- `as_object`
fields_of : Option Json → Fields
fields_of (some (Json.object fs)) = fs
fields_of o = Fields.end

module _ (libs : Libraries) where
  as_i64 : Option Json → Option ℕ
  as_i64 (some (Json.number n)) = libs.number_as_i64 n
  as_i64 o = none

  described : (now : ℕ) (name value : Text) → Result Stop SecretRecord
  described now name value = do
    metadata ← secret_metadata libs now name value []
    ok (record { value = value; metadata = metadata })

  -- The record of a key in the old format; a value that is not an object is passed over.
  legacy_record : (now : ℕ) → Text → Json → Result Stop (Option SecretRecord)
  unfolding described as_str json_get
  legacy_record now name (Json.object fs) = elim (get_field fs (codes "metadata")) [
    | some m ↦ elim (libs.record_from_value (Json.object fs)) [
      | some parsed ↦ ok (some parsed)
      | none ↦ do r ← described now name []; ok (some r)
    ]
    | none ↦ do r ← described now name (as_str (get_field fs (codes "value"))); ok (some r)
  ]
  legacy_record now name value = ok none

  insert_some : Map SecretRecord → Text → Option SecretRecord → Map SecretRecord
  insert_some keys name none = keys
  insert_some keys name (some r) = insert keys name r

  legacy_keys : (now : ℕ) → Fields → Map SecretRecord → Result Stop (Map SecretRecord)
  unfolding legacy_record insert_some
  legacy_keys now Fields.end keys = ok keys
  legacy_keys now (Fields.field name value fs) keys =
      legacy_record now name value >>= λ r. legacy_keys now fs (insert_some keys name r)

  unfoldable pub legacy_to_v2 : (now : ℕ) → Json → Result Stop VaultData
  unfolding json_get as_str fields_of as_i64 legacy_keys
  legacy_to_v2 now data' = do
    keys ← legacy_keys now (fields_of (json_get data' (codes "keys"))) []
    ok (record {
      version = vault_version;
      created_at = get_or (as_i64 (json_get data' (codes "created_at"))) now;
      keys = keys;
      signing_private_key = as_str (json_get data' (codes "signing_private_key"));
      revoked_capabilities =
          get_or
            (libs.capabilities_from_value
              (get_or (json_get data' (codes "revoked_capabilities")) (Json.array Items.nil)))
            [];
      revoked_agents = [];
      capability_usage =
          get_or
            (libs.usage_from_value
              (get_or (json_get data' (codes "capability_usage")) (Json.object Fields.end)))
            [];
      agents = [];
    })

  -- The text that `save` writes.
  unfoldable pub seal_data :
      (password : Text) → KdfParamsDoc → VaultData → (salt nonce : Text) → Result VaultError Text
  seal_data password kdf d salt nonce = do
    key ← ok_or (libs.argon2 password salt kdf) crypto
    aad ← ok_or (libs.aad vault_version kdf (b64e libs.crypto salt)) json
    plaintext ← ok_or (libs.data_to_vec d) json
    ciphertext ← ok_or (libs.encrypt key nonce aad plaintext) crypto
    ok_or
        (libs.envelope_to_vec_pretty (record {
          version = vault_version;
          kdf = kdf;
          salt = b64e libs.crypto salt;
          nonce = b64e libs.crypto nonce;
          ciphertext = b64e libs.crypto ciphertext;
        }))
        json

  -- The data of a decrypted vault, by the envelope's version.
  migrate : (now : ℕ) → (version : ℕ) → Json → Result Failure VaultData
  unfolding legacy_to_v2
  migrate now v raw =
      if v == 1
      then from_scan (legacy_to_v2 now raw)
      else if v == 2
      then from_vault (ok_or (libs.data_from_value raw) json)
      else err (refused (version v))

  -- What `open` reads from the text. `Nonce::from_slice` panics unless it is given 12 bytes.
  unfoldable pub open_bytes :
      (now : ℕ) (password bytes : Text) → Result Failure (KdfParamsDoc × VaultData)
  unfolding migrate
  open_bytes now password bytes = do
    env ← from_vault (ok_or (libs.envelope_from_slice bytes) json)
    salt ← from_vault (ok_or (libs.crypto.b64_decode env.salt) crypto)
    nonce ← from_vault (ok_or (libs.crypto.b64_decode env.nonce) crypto)
    ciphertext ← from_vault (ok_or (libs.crypto.b64_decode env.ciphertext) crypto)
    key ← from_vault (ok_or (libs.argon2 password salt env.kdf) crypto)
    aad ← from_vault (ok_or (libs.aad env.version env.kdf env.salt) json)
    reject_if (not (length nonce == 12)) (stopped panicked)
    plaintext ← from_vault (ok_or (libs.decrypt key nonce aad ciphertext) wrong_password)
    raw ← from_vault (ok_or (libs.value_from_slice plaintext) json)
    data' ← migrate now env.version raw
    ok (env.kdf, data')

-- ===== src/Vault/Names.antt =====
-- Names of secrets and what is recorded with a secret: `validate_name`, `classify_kind`,
-- `redacted_preview` and `secret_metadata` of crates/lockrail-vault/src/lib.rs.
use lockrail.Prelude.{
  ℕ, ◌||◌, Option, none, some, List, [], ◌∷◌, ◌++◌, take, drop, true, false, Result, ok, ◌>>=◌,
  map_err, reject_if,
}
use lockrail.Prelude.Text.{Text, codes, contains, find, is_empty}
use lockrail.Prelude.Text.Trim.{has_white}
use lockrail.Protocol.Crypto.{sha256_hex}
use lockrail.Protocol.Error.{Outcome}
use lockrail.Protocol.Seal
use lockrail.Protocol.Seal.{SecretFinding}
use lockrail.Protocol.Seal.Step.{Stop}
use lockrail.Protocol.Seal.Table.{scan_text}
use lockrail.Vault.Document.{SecretMetadata}
use lockrail.Vault.Error.{VaultError, invalid_name, protocol}
use lockrail.Vault.Exec.{Failure, refused, stopped}
use lockrail.Vault.Libraries.{Libraries}

-- The `?` on each kind of result.
abbrev pub from_vault {ℓ} : {A : Type ℓ} → Result VaultError A → Result Failure A
from_vault r = map_err refused r

abbrev pub from_scan {ℓ} : {A : Type ℓ} → Result Stop A → Result Failure A
from_scan r = map_err stopped r

abbrev pub from_protocol : {A : Type 0} → Outcome A → Result Failure A
from_protocol r = map_err (λ e. refused (protocol e)) r

unfoldable pub validate_name : Text → Result VaultError (Unit {0})
validate_name name =
    reject_if (is_empty name || has_white name || contains name (codes "..")) invalid_name

-- `name.split_once('/')`
before_slash : Text → Option Text
before_slash name = elim (find name (codes "/")) [ none ↦ none | some i ↦ some (take i name) ]

unfoldable pub classify_kind : Text → Text
unfolding before_slash
classify_kind name = elim (before_slash name) [ none ↦ codes "generic" | some prefix ↦ prefix ]

preview_of : List SecretFinding → Text → Text
preview_of [] value = Seal.redacted_preview value
preview_of (f ∷ fs) value = f.preview

module _ (libs : Libraries) where
  unfoldable pub redacted_preview : Text → Result Stop Text
  unfolding preview_of
  redacted_preview value = do
    findings ←
        scan_text libs.crypto libs.entropy_at_least_3_6 value
          (record { aggressive = false; protection_mode = true })
    ok (preview_of findings value)

  unfoldable pub secret_fingerprint : Text → Text
  secret_fingerprint value = codes "fp_" ++ take 16 (drop 7 (sha256_hex libs.crypto value))

  unfoldable pub secret_metadata :
      (now : ℕ) (name value : Text) (tags : List Text) → Result Stop SecretMetadata
  unfolding redacted_preview classify_kind secret_fingerprint
  secret_metadata now name value tags = do
    preview ← redacted_preview value
    ok (record {
      name = name;
      kind = classify_kind name;
      fingerprint = secret_fingerprint value;
      redacted_preview = preview;
      created_at = now;
      updated_at = now;
      last_used_at = none;
      tags = tags;
    })

-- ===== src/Vault/Keys.antt =====
-- The secrets of a vault: the methods of `Vault` in crates/lockrail-vault/src/lib.rs that read and
-- change them, its signing key, and the capabilities that it revokes and counts. `now` is the
-- clock's value, read once in a call.
use lockrail.Vault.Exec.{modify, pure, gets, ◌>>=◌, ◌>>◌, refuse, lift, Exec}
use mathlib.Core.Option.{get_or}
use lockrail.Prelude.{
  ℕ, ◌+◌, ◌%◌, ◌^◌, Bool, true, false, not, Option, none, some, List, [], ◌∷◌, ◌++◌, map, any,
  length, ◌==◌, if◌then◌else◌, Result, ok, err, ok_or, reject_if,
}
use lockrail.Prelude.Map.{get, insert, remove}
use lockrail.Prelude.Text.{Text, codes, text_eq, starts_with}
use lockrail.Protocol.Crypto.{b64d}
use lockrail.Relay.Usage.{exhausted}
use lockrail.Vault.Document.{
  SecretMetadata, SecretRecord, VaultData, agent_secret_prefix, usage_get, usage_insert,
}
use lockrail.Vault.Error.{
  VaultError, credential_exists, missing_credential, invalid_name, usage_limit_exceeded, crypto,
}
use lockrail.Vault.Libraries.{Libraries}
use lockrail.Vault.Names.{from_vault, from_scan, from_protocol, validate_name, secret_metadata}
use lockrail.Vault.Order.{in_order}
use lockrail.Vault.Save.{Io, save}

unfoldable pub is_some {ℓ} : {A : Type ℓ} → Option A → Bool
is_some none = false
is_some (some a) = true

-- `o.ok_or(e)?`
unfoldable pub require : {A : Type 0} → VaultError → Option A → Exec A
require e o = lift (from_vault (ok_or o e))

unfoldable pub put_record : Text → SecretRecord → VaultData → VaultData
put_record name r d = record d { keys = insert d.keys name r }

-- `created_at` of the record that a name has.
unfoldable pub created_at_of : (now : ℕ) → Option SecretRecord → ℕ
created_at_of now none = now
created_at_of now (some r) = r.metadata.created_at

unfoldable pub used : (now : ℕ) → SecretRecord → SecretRecord
used now r = record r { metadata = record r.metadata { last_used_at = some now; updated_at = now } }

-- `tags.push(env_tag)`, unless it is there.
unfoldable pub with_env_tag : Text → List Text → List Text
with_env_tag env_tag tags = if any (λ t. text_eq t env_tag) tags then tags else tags ++ env_tag ∷ []

-- `set.insert(id)`
unfoldable pub insert_id : ℕ → List ℕ → List ℕ
insert_id id ids = if any (λ i. i == id) ids then ids else id ∷ ids

unfoldable pub next_use : Option ℕ → ℕ → Result VaultError ℕ
next_use max_uses current =
    if exhausted max_uses current then err usage_limit_exceeded else ok ((current + 1) % 2 ^ 64)

module _ (libs : Libraries) where
  unfoldable pub add_key : (now : ℕ) → Io → (name value : Text) → Exec (Unit {0})
  unfolding is_some put_record
  add_key now io name value = do
    lift (from_vault (validate_name name))
    s ← gets (λ s. s)
    if is_some (get s.data'.keys name) then refuse credential_exists else do
      metadata ← lift (from_scan (secret_metadata libs now name value []))
      modify (put_record name (record { value = value; metadata = metadata }))
      save libs io

  -- What `upsert_key` and `set_secret` do behind the test of the name.
  unfoldable pub put_secret : (now : ℕ) → Io → (name value : Text) → List Text → Exec (Unit {0})
  unfolding created_at_of put_record
  put_secret now io name value tags = do
    s ← gets (λ s. s)
    metadata ← lift (from_scan (secret_metadata libs now name value tags))
    modify (
        put_record name (record {
          value = value;
          metadata = record metadata {
            created_at = created_at_of now (get s.data'.keys name);
            updated_at = now;
          };
        }))
    save libs io

  unfoldable pub upsert_key : (now : ℕ) → Io → (name value : Text) → List Text → Exec (Unit {0})
  unfolding put_secret
  upsert_key now io name value tags = do
    lift (from_vault (validate_name name))
    put_secret now io name value tags

  unfoldable pub set_secret :
      (now : ℕ) → Io → (name value environment : Text) → List Text → Exec (Unit {0})
  unfolding put_secret with_env_tag
  set_secret now io name value environment extra_tags = do
    lift (from_vault (validate_name name))
    put_secret now io name value (with_env_tag (codes "env:" ++ environment) extra_tags)

  unfoldable pub remove_key : Io → Text → Exec Bool
  unfolding is_some
  remove_key io name = do
    existed ← gets (λ s. is_some (get s.data'.keys name))
    modify (λ d. record d { keys = remove d.keys name })
    save libs io
    pure existed

  -- A secret of an agent is not deleted by its name.
  unfoldable pub delete_secret : Io → Text → Exec Bool
  unfolding remove_key
  delete_secret io name =
      if starts_with name agent_secret_prefix then refuse invalid_name else remove_key io name

  unfoldable pub use_key : (now : ℕ) → Io → Text → Exec Text
  unfolding require put_record used
  use_key now io name = do
    s ← gets (λ s. s)
    r ← require missing_credential (get s.data'.keys name)
    modify (put_record name (used now r))
    save libs io
    pure r.value

  unfoldable pub signing_key : Exec Text
  signing_key = do
    s ← gets (λ s. s)
    raw ← lift (from_protocol (b64d libs.crypto s.data'.signing_private_key))
    lift (from_vault (reject_if (not (length raw == 32)) crypto))
    pure raw

  unfoldable pub issuer_public_key : Exec Text
  unfolding signing_key
  issuer_public_key = do signing ← signing_key; pure (libs.crypto.verifying_key signing)

  unfoldable pub revoke : Io → (cap_id : ℕ) → Exec (Unit {0})
  unfolding insert_id
  revoke io cap_id = do
    modify (λ d. record d { revoked_capabilities = insert_id cap_id d.revoked_capabilities })
    save libs io

  -- The count wraps, since the release build has no overflow checks.
  unfoldable pub record_use : Io → (cap_id : ℕ) → Option ℕ → Exec ℕ
  unfolding next_use
  record_use io cap_id max_uses = do
    s ← gets (λ s. s)
    next ←
        lift (from_vault (next_use max_uses (get_or (usage_get s.data'.capability_usage cap_id) 0)))
    modify (λ d. record d { capability_usage = usage_insert d.capability_usage cap_id next })
    save libs io
    pure next

unfoldable pub revoked_list : VaultData → List ℕ
revoked_list d = d.revoked_capabilities

unfoldable pub list_secret_metadata : VaultData → List SecretMetadata
list_secret_metadata d = map (λ (k, r). r.metadata) (in_order d.keys)

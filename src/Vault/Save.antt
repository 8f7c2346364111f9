-- ===== src/Vault/Save.antt =====
-- A vault and its file: `Vault::init`, `open` and `save` of crates/lockrail-vault/src/lib.rs.
pub mod Atomic
use lockrail.Prelude.{ℕ, Bool, true, false, Option, none, some, [], if◌then◌else◌, Result, ok, err}
use lockrail.Prelude.Map.{Map}
use lockrail.Prelude.Text.{Text}
use lockrail.Protocol.Agent.{AgentPublicDoc}
use lockrail.Protocol.Crypto.{b64e}
use lockrail.Vault.Document.{KdfParamsDoc, VaultData, vault_version}
use lockrail.Vault.Envelope.{seal_data, open_bytes}
use lockrail.Vault.Error.{VaultError, exists, missing}
use lockrail.Vault.Error
use lockrail.Vault.Exec.{
  Failure, refused, Session, Exec, refuse, lift, gets, Write, write_file, ◌>>=◌,
}
use lockrail.Vault.Libraries.{Libraries}
use lockrail.Vault.Names.{from_vault}

-- What a call of `save` meets: whether the lock is had, fresh bytes, and how the write ends.
pub record Io : Type 0 where
  pub locked : Bool
  pub salt : Text
  pub nonce : Text
  pub write : Write

abbrev map_ok : {E A B : Type 0} → (A → B) → Result E A → Result E B
map_ok f (ok a) = ok (f a)
map_ok f (err e) = err e

abbrev is_file : Option Text → Bool
is_file none = false
is_file (some bytes) = true

module _ (libs : Libraries) where
  -- The text for the session's data, with the bytes of `io`.
  abbrev pub sealed : Io → Session → Result VaultError Text
  sealed io s = seal_data libs s.password s.kdf s.data' io.salt io.nonce

  unfoldable pub save : Io → Exec (Unit {0})
  save io =
      if io.locked
      then (gets (sealed io) >>= λ r. lift (from_vault r) >>= λ bytes. write_file io.write bytes)
      else refuse Error.io

  -- A new vault, with the fresh key `signing`. The rest of the session is the disk as it is found.
  abbrev pub fresh :
      (now : ℕ) (signing password : Text)
      → KdfParamsDoc
      → Option Text
      → Map AgentPublicDoc
      → Session
  fresh now signing password kdf file docs = record {
    password = password;
    kdf = kdf;
    data' = record {
      version = vault_version;
      created_at = now;
      keys = [];
      signing_private_key = b64e libs.crypto signing;
      revoked_capabilities = [];
      revoked_agents = [];
      capability_usage = [];
      agents = [];
    };
    file = file;
    docs = docs;
  }

  unfoldable pub init :
      (now : ℕ) (signing : Text)
      → Io
      → (password : Text) → KdfParamsDoc
      → Option Text
      → Map AgentPublicDoc
      → Result Failure (Unit {0}) × Session
  unfolding save
  init now signing io password kdf file docs =
      let s = fresh now signing password kdf file docs in
      if is_file file then (err (refused exists), s) else save io s

  -- `locked` tells that the lock is had and the file is read.
  unfoldable pub open_vault :
      (locked : Bool) (now : ℕ) (password : Text)
      → Option Text
      → Map AgentPublicDoc
      → Result Failure Session
  open_vault locked now password none docs = err (refused missing)
  open_vault locked now password (some bytes) docs =
      if locked
      then map_ok
          (λ (kdf, data'). record {
            password = password;
            kdf = kdf;
            data' = data';
            file = some bytes;
            docs = docs;
          })
          (open_bytes libs now password bytes)
      else err (refused Error.io)

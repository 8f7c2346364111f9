-- ===== src/Vault/Document.antt =====
-- The data that a vault holds, and the envelope that it is stored in: `VaultData`, `VaultEnvelope`
-- and their parts in crates/lockrail-vault/src/lib.rs. Dropping a value clears its secrets, which
-- does not change what a live value holds.
use lockrail.Prelude.{ℕ, Bool, Option, none, some, List, [], ◌∷◌, ◌==◌, if◌then◌else◌}
use lockrail.Prelude.Map.{Map}
use lockrail.Prelude.Text.{Text, codes}
use lockrail.Protocol.Agent.{AgentPublicDoc}

pub record KdfParamsDoc : Type 0 where
  pub name : Text
  pub memory_kib : ℕ
  pub iterations : ℕ
  pub parallelism : ℕ
  pub output_len : ℕ

-- `KdfParamsDoc::default`
abbrev pub default_kdf : KdfParamsDoc
default_kdf = record {
  name = codes "argon2id";
  memory_kib = 19456;
  iterations = 2;
  parallelism = 1;
  output_len = 32;
}

abbrev pub test_fast : KdfParamsDoc
test_fast = record default_kdf { memory_kib = 1024; iterations = 1 }

pub record VaultEnvelope : Type 0 where
  pub version : ℕ
  pub kdf : KdfParamsDoc
  pub salt : Text
  pub nonce : Text
  pub ciphertext : Text

pub record SecretMetadata : Type 0 where
  pub name : Text
  pub kind : Text
  pub fingerprint : Text
  pub redacted_preview : Text
  pub created_at : ℕ
  pub updated_at : ℕ
  pub last_used_at : Option ℕ
  pub tags : List Text

pub record SecretRecord : Type 0 where
  pub value : Text
  pub metadata : SecretMetadata

pub record AgentRecord : Type 0 where
  pub public : AgentPublicDoc
  pub updated_at : ℕ
  pub revoked : Bool

-- The sets of revoked names are lists; a UUID is its number.
pub record VaultData : Type 0 where
  pub version : ℕ
  pub created_at : ℕ
  pub keys : Map SecretRecord
  pub signing_private_key : Text
  pub revoked_capabilities : List ℕ
  pub revoked_agents : List Text
  pub capability_usage : List (ℕ × ℕ)
  pub agents : Map AgentRecord

abbrev pub vault_version : ℕ
vault_version = 2

abbrev pub agent_secret_prefix : Text
agent_secret_prefix = codes "agent-private/"

-- `map.get(&id)` and `map.insert(id, n)` on the usage by UUID.
pub usage_get : List (ℕ × ℕ) → ℕ → Option ℕ
usage_get [] id = none
usage_get ((j, n) ∷ m) id = if j == id then some n else usage_get m id

pub usage_insert : List (ℕ × ℕ) → ℕ → ℕ → List (ℕ × ℕ)
usage_insert [] id n = (id, n) ∷ []
usage_insert ((j, k) ∷ m) id n = if j == id then (j, n) ∷ m else (j, k) ∷ usage_insert m id n

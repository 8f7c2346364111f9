-- ===== src/Protocol/Agent.antt =====
-- `AgentKeypairDoc` and `AgentPublicDoc` of crates/lockrail-protocol/src/lib.rs. The redacting
-- `Debug` text and the zeroing on drop do not change what a document holds.
use lockrail.Prelude.{ℕ, Bool, false, ok, ◌>>=◌, ◌>>◌, ◌++◌, length, ◌==◌, not, reject_if}
use lockrail.Prelude.Text.{Text, codes}
use lockrail.Protocol.Error.{Outcome, key}
use lockrail.Protocol.Crypto.{Crypto, b64e, b64d}

pub record AgentKeypairDoc : Type 0 where
  pub version : ℕ
  pub agent_id : Text
  pub name : Text
  pub kind : Text
  pub created_at : ℕ
  pub updated_at : ℕ
  pub public_key : Text
  pub private_key : Text

pub record AgentPublicDoc : Type 0 where
  pub version : ℕ
  pub agent_id : Text
  pub name : Text
  pub kind : Text
  pub created_at : ℕ
  pub updated_at : ℕ
  pub public_key : Text
  pub revoked : Bool

-- `signing` is the fresh key, `id` the simple form of the fresh UUID, `now` the clock's value.
unfoldable pub generate :
    Crypto → (signing id : Text) (now : ℕ) (name kind : Text) → AgentKeypairDoc
generate c signing id now name kind = record {
  version = 1;
  agent_id = codes "agt_" ++ id;
  name = name;
  kind = kind;
  created_at = now;
  updated_at = now;
  public_key = b64e c (c.verifying_key signing);
  private_key = b64e c signing;
}

unfoldable pub signing_key : Crypto → AgentKeypairDoc → Outcome Text
signing_key c doc = do raw ← b64d c doc.private_key; reject_if (not (length raw == 32)) key; ok raw

unfoldable pub public_view : AgentKeypairDoc → AgentPublicDoc
public_view doc = record {
  version = doc.version;
  agent_id = doc.agent_id;
  name = doc.name;
  kind = doc.kind;
  created_at = doc.created_at;
  updated_at = doc.updated_at;
  public_key = doc.public_key;
  revoked = false;
}

-- ===== src/Vault/Exec.antt =====
-- Methods of `Vault` that change it and may fail. What a method has changed before it fails stays
-- changed, in memory and on the disk.
pub mod Keeps
use lockrail.Prelude.{ℕ, ◌≡◌, Bool, true, false, Option, none, some, if◌then◌else◌, Result, ok, err}
use lockrail.Prelude.Map.{Map, insert}
use lockrail.Prelude.Text.{Text}
use lockrail.Protocol.Agent.{AgentPublicDoc}
use lockrail.Protocol.Seal.Step.{Stop}
use lockrail.Vault.Document.{KdfParamsDoc, VaultData}
use lockrail.Vault.Error.{VaultError, io}

-- `stopped` is a panic of the scanner, or of a slice, which ends the process.
pub data Failure : Type 0 where
  refused : VaultError → Failure
  stopped : Stop → Failure

-- `Vault` without its path, the file at the path, and the directory of public agent documents.
pub record Session : Type 0 where
  pub password : Text
  pub kdf : KdfParamsDoc
  pub data' : VaultData
  pub file : Option Text
  pub docs : Map AgentPublicDoc

abbrev pub Exec : Type 0 → Type 0
Exec A = Session → Result Failure A × Session

module _ {A : Type 0} where
  unfoldable pub pure : A → Exec A
  pure a s = (ok a, s)

  unfoldable pub refuse : VaultError → Exec A
  refuse e s = (err (refused e), s)

  unfoldable pub lift : Result Failure A → Exec A
  lift r s = (r, s)

  unfoldable pub gets : (Session → A) → Exec A
  gets f s = (ok (f s), s)

-- An assignment to `self.data`.
unfoldable pub modify : (VaultData → VaultData) → Exec (Unit {0})
modify f s = (ok tt, record s { data' = f s.data' })

module _ {A B : Type 0} where
  abbrev pub continue : Result Failure A → (A → Exec B) → Exec B
  continue (ok a) f s = f a s
  continue (err e) f s = (err e, s)

  infixl 5 ◌>>=◌ ◌>>◌
  unfoldable pub ◌>>=◌ : Exec A → (A → Exec B) → Exec B
  unfolding pure refuse lift gets modify
  ◌>>=◌ m f s = let (r, s') = m s in continue r f s'

  abbrev pub ◌>>◌ : Exec A → Exec B → Exec B
  m >> n = m >>= λ a. n

-- How `write_private_atomic` ends: well, before the rename, or behind it, where the directory
-- cannot be synced.
pub data Write : Type 0 where
  written failed unsynced : Write

unfoldable pub write_result : Write → Result Failure (Unit {0})
write_result written = ok tt
write_result failed = err (refused io)
write_result unsynced = err (refused io)

unfoldable pub write_file : Write → Text → Exec (Unit {0})
unfolding write_result
write_file failed bytes s = (write_result failed, s)
write_file w bytes s = (write_result w, record s { file = some bytes })

-- `write_public_agent_doc`: a document is held under its agent's name.
unfoldable pub write_public_agent_doc : Write → AgentPublicDoc → Exec (Unit {0})
unfolding write_result
write_public_agent_doc failed public s = (write_result failed, s)
write_public_agent_doc w public s =
    (write_result w, record s { docs = insert s.docs public.agent_id public })

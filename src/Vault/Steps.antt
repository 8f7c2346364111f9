-- ===== src/Vault/Steps.antt =====
-- What happens to an open vault: any method of `Vault` in crates/lockrail-vault/src/lib.rs that
-- changes it, one after another, whether it returns or fails.
pub mod Lasting
pub mod Revoked
pub mod Agents
pub mod Saved
mod Tests
use lockrail.Prelude.{◌≡◌, refl, ℕ, Option, none, some, List, []}
use lockrail.Prelude.Map.{Map, get}
use lockrail.Prelude.Text.{Text}
use lockrail.Protocol.Agent.{AgentKeypairDoc, AgentPublicDoc}
use lockrail.Vault.Agents.{save_agent, load_agent, revoke_agent}
use lockrail.Vault.Document.{KdfParamsDoc, VaultData}
use lockrail.Vault.Exec.{Session, Exec, Write, pure, ◌>>=◌}
use lockrail.Vault.Exec.Keeps.{Keeps, Keeps-pure, Keeps-then}
use lockrail.Vault.Keys.{
  add_key, upsert_key, set_secret, remove_key, delete_secret, use_key, revoke, record_use,
}
use lockrail.Vault.Libraries.{Libraries}
use lockrail.Vault.Save.{Io, init, fresh}
use lockrail.Vault.WellFormed.{WellFormed}
use lockrail.Vault.WellFormed.Operations.{
  KeepsOrder, add_key-Keeps, upsert_key-Keeps, set_secret-Keeps, remove_key-Keeps,
  delete_secret-Keeps, use_key-Keeps, revoke-Keeps, record_use-Keeps, save_agent-Keeps,
  load_agent-Keeps, revoke_agent-Keeps, Keeps-save,
}

-- A method with its arguments and what it meets outside.
pub data VaultCall : Type 0 where
  adding : (now : ℕ) → Io → (name value : Text) → VaultCall
  upserting : (now : ℕ) → Io → (name value : Text) → List Text → VaultCall
  setting : (now : ℕ) → Io → (name value environment : Text) → List Text → VaultCall
  removing deleting : Io → Text → VaultCall
  using : (now : ℕ) → Io → Text → VaultCall
  revoking : Io → ℕ → VaultCall
  counting : Io → ℕ → Option ℕ → VaultCall
  saving_agent : (now : ℕ) (first second : Io) → Write → AgentKeypairDoc → VaultCall
  loading_agent : (now : ℕ) → Io → Text → VaultCall
  revoking_agent : Io → Write → Text → VaultCall

-- A method whose result is dropped.
unfoldable pub dropped : {A : Type 0} → Exec A → Exec (Unit {0})
dropped m = m >>= λ a. pure tt

unfoldable pub run : Libraries → VaultCall → Exec (Unit {0})
unfolding dropped
run libs (adding now io name value) = add_key libs now io name value
run libs (upserting now io name value tags) = upsert_key libs now io name value tags
run libs (setting now io name value env tags) = set_secret libs now io name value env tags
run libs (removing io name) = dropped (remove_key libs io name)
run libs (deleting io name) = dropped (delete_secret libs io name)
run libs (using now io name) = dropped (use_key libs now io name)
run libs (revoking io id) = revoke libs io id
run libs (counting io id max_uses) = dropped (record_use libs io id max_uses)
run libs (saving_agent now first second w doc) = save_agent libs now first second w doc
run libs (loading_agent now io id) = dropped (load_agent libs now io id)
run libs (revoking_agent io w id) = revoke_agent libs io w id

-- The sessions that calls lead to from `s`.
pub data Reaches (libs : Libraries) (s : Session) : Session → Type 0 where
  here : Reaches libs s s
  after : {t : Session} (c : VaultCall) → Reaches libs s t → Reaches libs s (run libs c t).1

module _ (libs : Libraries) where
  run-Keeps : (c : VaultCall) → KeepsOrder libs (run libs c)
  unfolding run dropped
  run-Keeps (adding now io name value) = add_key-Keeps libs now io name value
  run-Keeps (upserting now io name value tags) = upsert_key-Keeps libs now io name value tags
  run-Keeps (setting now io name value env tags) = set_secret-Keeps libs now io name value env tags
  run-Keeps (removing io name) = Keeps-then _ _ (remove_key-Keeps libs io name) (λ a. Keeps-pure tt)
  run-Keeps (deleting io name) =
      Keeps-then _ _ (delete_secret-Keeps libs io name) (λ a. Keeps-pure tt)
  run-Keeps (using now io name) =
      Keeps-then _ _ (use_key-Keeps libs now io name) (λ a. Keeps-pure tt)
  run-Keeps (revoking io id) = revoke-Keeps libs io id
  run-Keeps (counting io id max_uses) =
      Keeps-then _ _ (record_use-Keeps libs io id max_uses) (λ a. Keeps-pure tt)
  run-Keeps (saving_agent now first second w doc) = save_agent-Keeps libs now first second w doc
  run-Keeps (loading_agent now io id) =
      Keeps-then _ _ (load_agent-Keeps libs now io id) (λ a. Keeps-pure tt)
  run-Keeps (revoking_agent io w id) = revoke_agent-Keeps libs io w id

  -- What each call keeps holds in every session that calls lead to.
  pub Reaches-keeps :
      (P : VaultData → Type 0)
      → ((c : VaultCall) → Keeps P (run libs c))
      → (s t : Session) → Reaches libs s t
      → P s.data'
      → P t.data'
  Reaches-keeps P k s t here h = h
  Reaches-keeps P k s t (after c r) h = (k c).at _ (Reaches-keeps P k s _ r h)

  -- Data without keys and agents.
  empty-WellFormed : (d : VaultData) → d.keys ≡ [] → d.agents ≡ [] → WellFormed libs d
  unfolding get
  empty-WellFormed d k a = record {
    keys = rw k tt;
    agents = rw a tt;
    describes = rw k (λ j r h. cc);
    ids = rw a (λ j r h. cc);
  }

  init-WellFormed :
      (now : ℕ) (signing : Text) (io : Io) (password : Text) (kdf : KdfParamsDoc)
      (file : Option Text) (docs : Map AgentPublicDoc)
      → WellFormed libs (init libs now signing io password kdf file docs).1.data'
  unfolding init
  init-WellFormed now signing io password kdf (some bytes) docs = empty-WellFormed _ refl refl
  init-WellFormed now signing io password kdf none docs =
      (Keeps-save libs {P = WellFormed libs} io).at (fresh libs now signing password kdf none docs)
        (empty-WellFormed _ refl refl)

  -- In every session that calls lead to from a new vault, the data are in order: each name of a
  -- key or an agent stands once, each name of a key is valid, each record's metadata are about
  -- its name and its value, and each agent is held under its own name.
  pub Reaches-WellFormed :
      (now : ℕ) (signing : Text) (io : Io) (password : Text) (kdf : KdfParamsDoc)
      (file : Option Text) (docs : Map AgentPublicDoc) (t : Session)
      → Reaches libs (init libs now signing io password kdf file docs).1 t
      → WellFormed libs t.data'
  Reaches-WellFormed now signing io password kdf file docs t r =
      Reaches-keeps (WellFormed libs) run-Keeps _ t r
        (init-WellFormed now signing io password kdf file docs)

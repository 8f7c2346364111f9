-- ===== src/Vault/Agents.antt =====
-- The agents of a vault: the methods of `Vault` in crates/lockrail-vault/src/lib.rs that save, load
-- and revoke them, and the secrets of an environment. `now` is the clock's value, read once in a
-- call; each `Io` is for one call of `save`.
use lockrail.Prelude.{
  ℕ, Bool, true, false, ◌||◌, Option, none, some, List, [], ◌∷◌, ◌++◌, map, any, if◌then◌else◌,
}
use lockrail.Prelude.Map.{Map, get, insert, retain}
use lockrail.Prelude.Text.{Text, codes, text_eq, strip_prefix}
use lockrail.Protocol.Agent.{AgentKeypairDoc, AgentPublicDoc, public_view}
use lockrail.Protocol.Json.{compare_text}
use lockrail.Vault.Document.{SecretRecord, AgentRecord, VaultData, agent_secret_prefix}
use lockrail.Vault.Error.{missing_credential, revoked}
use lockrail.Vault.Exec.{
  Exec, Write, pure, refuse, lift, gets, modify, write_public_agent_doc, ◌>>=◌, ◌>>◌,
}
use lockrail.Vault.Keys.{require, upsert_key, use_key}
use lockrail.Vault.Libraries.{Libraries}
use lockrail.Vault.Names.{from_vault, validate_name}
use lockrail.Vault.Order.{in_order}
use lockrail.Vault.Save.{Io, save}
use Prim.Native.Nat.{Ordering}

-- `revoked_agents.contains(agent_id)` and `insert`
unfoldable pub is_revoked : VaultData → Text → Bool
is_revoked d agent_id = any (λ a. text_eq a agent_id) d.revoked_agents

unfoldable pub mark_revoked : Text → VaultData → VaultData
unfolding is_revoked
mark_revoked agent_id d =
    if is_revoked d agent_id then d else record d { revoked_agents = agent_id ∷ d.revoked_agents }

unfoldable pub put_agent : Text → AgentRecord → VaultData → VaultData
put_agent agent_id r d = record d { agents = insert d.agents agent_id r }

unfoldable pub loaded : AgentPublicDoc → Text → AgentKeypairDoc
loaded p private_key = record {
  version = p.version;
  agent_id = p.agent_id;
  name = p.name;
  kind = p.kind;
  created_at = p.created_at;
  updated_at = p.updated_at;
  public_key = p.public_key;
  private_key = private_key;
}

module _ (libs : Libraries) where
  unfoldable pub save_agent :
      (now : ℕ) (first second : Io) → (doc_write : Write) → AgentKeypairDoc → Exec (Unit {0})
  unfolding put_agent
  save_agent now first second doc_write doc = do
    lift (from_vault (validate_name doc.name))
    let public = public_view doc
    upsert_key libs now first (agent_secret_prefix ++ public.agent_id) doc.private_key
        (codes "agent" ∷ public.kind ∷ [])
    modify
        (put_agent public.agent_id (record { public = public; updated_at = now; revoked = false }))
    save libs second
    write_public_agent_doc doc_write public

  unfoldable pub load_agent : (now : ℕ) → Io → Text → Exec AgentKeypairDoc
  unfolding is_revoked loaded
  load_agent now io agent_id = do
    s ← gets (λ s. s)
    r ← require missing_credential (get s.data'.agents agent_id)
    if r.revoked || is_revoked s.data' agent_id then refuse revoked else do
      private_key ← use_key libs now io (agent_secret_prefix ++ agent_id)
      pure (loaded r.public private_key)

  unfoldable pub revoke_agent : Io → (doc_write : Write) → Text → Exec (Unit {0})
  unfolding put_agent mark_revoked
  revoke_agent io doc_write agent_id = do
    s ← gets (λ s. s)
    r ← require missing_credential (get s.data'.agents agent_id)
    modify (λ d. mark_revoked agent_id (put_agent agent_id (record r { revoked = true }) d))
    save libs io
    write_public_agent_doc doc_write (record r.public { revoked = true })

-- One entry of `list_agents`.
unfoldable pub listed : VaultData → AgentRecord → AgentPublicDoc
unfolding is_revoked
listed d r = record r.public { revoked = r.revoked || is_revoked d r.public.agent_id }

unfoldable pub list_agents : VaultData → List AgentPublicDoc
unfolding listed
list_agents d = map (λ (k, r). listed d r) (in_order d.agents)

unfoldable pub agent_public : Text → Exec AgentPublicDoc
agent_public agent_id = do
  s ← gets (λ s. s)
  r ← require missing_credential (get s.data'.agents agent_id)
  pure r.public

-- The secrets with the tag of an environment; without one, all of them.
tagged : Option Text → SecretRecord → Bool
tagged none r = true
tagged (some env) r = any (λ t. text_eq t (codes "env:" ++ env)) r.metadata.tags

unfoldable pub secrets_for_env : VaultData → Option Text → Map SecretRecord
unfolding tagged
secrets_for_env d environment = retain (tagged environment) (in_order d.keys)

-- A `BTreeSet<String>` as the sorted list of its elements.
unfoldable pub set_insert : Text → List Text → List Text
set_insert x [] = x ∷ []
set_insert x (y ∷ ys) = elim (compare_text x y) [
  | Ordering.lt ↦ x ∷ y ∷ ys
  | Ordering.eq ↦ y ∷ ys
  | Ordering.gt ↦ y ∷ set_insert x ys
]

insert_env : Option Text → List Text → List Text
unfolding set_insert
insert_env none envs = envs
insert_env (some env) envs = set_insert env envs

tag_envs : List Text → List Text → List Text
unfolding insert_env
tag_envs [] envs = envs
tag_envs (t ∷ ts) envs = tag_envs ts (insert_env (strip_prefix t (codes "env:")) envs)

record_envs : Map SecretRecord → List Text → List Text
unfolding tag_envs
record_envs [] envs = envs
record_envs ((k, r) ∷ m) envs = record_envs m (tag_envs r.metadata.tags envs)

unfoldable pub list_environments : VaultData → List Text
unfolding record_envs set_insert
list_environments d = set_insert (codes "default") (record_envs d.keys [])

-- ===== src/Vault/WellFormed/Operations.antt =====
-- Every method keeps the data in order.
use lockrail.Vault.Keys.{
  revoke, record_use, is_some, require, put_record, used, put_secret, add_key, upsert_key,
  set_secret, remove_key, delete_secret, use_key,
}
use lockrail.Prelude.{
  if◌then◌else◌, Bool, true, false, ◌≡◌, refl, ℕ, ◌||◌, Option, none, some, List, [], ok,
  map_err-eq-ok,
}
use lockrail.Prelude.Map.{get}
use lockrail.Prelude.Text.{Text, starts_with}
use lockrail.Protocol.Agent.{AgentPublicDoc, AgentKeypairDoc, public_view}
use lockrail.Vault.Agents.{save_agent, load_agent, revoke_agent, is_revoked}
use lockrail.Vault.Document.{SecretRecord, VaultData, agent_secret_prefix}
use lockrail.Vault.Error.{VaultError, credential_exists, invalid_name, revoked}
use lockrail.Vault.Exec.{
  Exec, Write, lift, gets, refuse, modify, pure, write_file, write_public_agent_doc, ◌>>=◌, ◌>>◌,
}
use lockrail.Vault.Exec.Keeps.{
  untouched_keeps, Untouched-write_file, Untouched-write_public_agent_doc, Keeps-refuse, Keeps,
  Keeps-pure, Keeps-guard, Keeps-assign, Keeps-try, Keeps-read, Keeps-then,
}
use lockrail.Vault.Libraries.{Libraries}
use lockrail.Vault.Names.{from_vault, validate_name}
use lockrail.Vault.Save.{Io, save, sealed}
use lockrail.Vault.WellFormed.{
  Describes, WellFormed, secret_metadata-Describes, again-Describes, put_record-WellFormed,
  remove-WellFormed, put_agent-WellFormed, mark_revoked-WellFormed,
}

module _ (libs : Libraries) {P : VaultData → Type 0} where
  -- `save`, by whether the lock is had.
  locked_save :
      (locked : Bool) (io : Io) (e : VaultError)
      → Keeps P (
          if locked
          then (gets (sealed libs io) >>= λ r.
              lift (from_vault r) >>= λ bytes. write_file io.write bytes)
          else refuse e)
  locked_save false io e = Keeps-refuse e
  locked_save true io e =
      Keeps-read _ _
        (λ s p. Keeps-try _ _ (λ bytes r. untouched_keeps P (Untouched-write_file io.write bytes)))

  pub Keeps-save : (io : Io) → Keeps P (save libs io)
  unfolding save
  Keeps-save io = locked_save io.locked io _

  pub Keeps-save_pure : {A : Type 0} (io : Io) (a : A) → Keeps P (save libs io >>= λ u. pure a)
  Keeps-save_pure io a = Keeps-then _ _ (Keeps-save io) (λ u. Keeps-pure a)

  -- The vault is saved, then the agent's public document is written.
  pub Keeps-publish :
      (io : Io) (w : Write) (public : AgentPublicDoc)
      → Keeps P (save libs io >> write_public_agent_doc w public)
  Keeps-publish io w public =
      Keeps-then _ _ (Keeps-save io)
        (λ u. untouched_keeps P (Untouched-write_public_agent_doc w public))

  pub Keeps-require :
      {A B : Type 0} (e : VaultError) (o : Option A) (f : A → Exec B)
      → ((a : A) → o ≡ some a → Keeps P (f a))
      → Keeps P (require e o >>= f)
  unfolding require
  Keeps-require e none f kf = Keeps-try _ f (λ a h. cc)
  Keeps-require e (some a) f kf = Keeps-try _ f (λ b h. kf b (cc))

module _ (libs : Libraries) where
  abbrev pub KeepsOrder : {A : Type 0} → Exec A → Type 0
  KeepsOrder m = Keeps (WellFormed libs) m

  validated :
      {A : Type 0} (name : Text) (m : Exec A)
      → (validate_name name ≡ ok tt → KeepsOrder m)
      → KeepsOrder (lift (from_vault (validate_name name)) >> m)
  validated name m k = Keeps-try _ _ (λ u h. k (map_err-eq-ok _ (validate_name name) h))

  -- A record of this name is stored, then something that keeps the data in order follows.
  stored :
      {A : Type 0} (name : Text) (r : SecretRecord) (m : Exec A)
      → Describes libs name r
      → KeepsOrder m
      → KeepsOrder (modify (put_record name r) >> m)
  stored name r m h k =
      Keeps-assign (put_record name r) _ (λ d w. put_record-WellFormed libs name r d h w) (k)

  pub add_key-Keeps :
      (now : ℕ) (io : Io) (name value : Text) → KeepsOrder (add_key libs now io name value)
  unfolding add_key
  add_key-Keeps now io name value = validated name _ (λ v. Keeps-read _ _ (λ s w.
      Keeps-guard (is_some (get s.data'.keys name)) credential_exists _ (λ e. Keeps-try _ _ (λ m h.
        stored name _ _ (secret_metadata-Describes libs now name value [] v (map_err-eq-ok _ _ h))
          (Keeps-save libs io)))))

  put_secret-Keeps :
      (now : ℕ) (io : Io) (name value : Text) (tags : List Text)
      → validate_name name ≡ ok tt
      → KeepsOrder (put_secret libs now io name value tags)
  unfolding put_secret
  put_secret-Keeps now io name value tags v = Keeps-read _ _ (λ s w. Keeps-try _ _ (λ m h.
      stored name _ _
        (again-Describes libs name (record { value = value; metadata = m }) _
          (secret_metadata-Describes libs now name value tags v (map_err-eq-ok _ _ h)) refl refl
          refl refl refl)
        (Keeps-save libs io)))

  pub upsert_key-Keeps :
      (now : ℕ) (io : Io) (name value : Text) (tags : List Text)
      → KeepsOrder (upsert_key libs now io name value tags)
  unfolding upsert_key
  upsert_key-Keeps now io name value tags =
      validated name _ (put_secret-Keeps now io name value tags)

  pub set_secret-Keeps :
      (now : ℕ) (io : Io) (name value environment : Text) (tags : List Text)
      → KeepsOrder (set_secret libs now io name value environment tags)
  unfolding set_secret
  set_secret-Keeps now io name value environment tags =
      validated name _ (put_secret-Keeps now io name value _)

  pub remove_key-Keeps : (io : Io) (name : Text) → KeepsOrder (remove_key libs io name)
  unfolding remove_key
  remove_key-Keeps io name =
      Keeps-read _ _ (λ s w.
        Keeps-assign _ _ (λ d h. remove-WellFormed libs name d h) (Keeps-save_pure libs _ _))

  pub delete_secret-Keeps : (io : Io) (name : Text) → KeepsOrder (delete_secret libs io name)
  unfolding delete_secret
  delete_secret-Keeps io name =
      Keeps-guard (starts_with name agent_secret_prefix) invalid_name _
        (λ e. remove_key-Keeps io name)

  pub use_key-Keeps : (now : ℕ) (io : Io) (name : Text) → KeepsOrder (use_key libs now io name)
  unfolding use_key used
  use_key-Keeps now io name = Keeps-read _ _ (λ s w. Keeps-require libs _ _ _ (λ r e.
      stored name _ _
        (again-Describes libs name r (used now r) (w.describes name r e) refl refl refl refl refl)
        (Keeps-save_pure libs _ _)))

  -- A change that does not touch the keys or the agents, then something that keeps the order.
  elsewhere :
      {A : Type 0} (f : VaultData → VaultData) (m : Exec A)
      → ((d : VaultData) → (f d).keys ≡ d.keys)
      → ((d : VaultData) → (f d).agents ≡ d.agents)
      → KeepsOrder m
      → KeepsOrder (modify f >> m)
  elsewhere f m k a h =
      Keeps-assign f _
        (λ d w. record {
          keys = rw (k d) w.keys;
          agents = rw (a d) w.agents;
          describes = rw (k d) w.describes;
          ids = rw (a d) w.ids;
        })
        (h)

  pub revoke-Keeps : (io : Io) (cap_id : ℕ) → KeepsOrder (revoke libs io cap_id)
  unfolding revoke
  revoke-Keeps io cap_id = elsewhere _ _ (λ d. refl) (λ d. refl) (Keeps-save libs io)

  pub record_use-Keeps :
      (io : Io) (cap_id : ℕ) (max_uses : Option ℕ) → KeepsOrder (record_use libs io cap_id max_uses)
  unfolding record_use
  record_use-Keeps io cap_id max_uses = Keeps-read _ _ (λ s w.
      Keeps-try _ _ (λ next e. elsewhere _ _ (λ d. refl) (λ d. refl) (Keeps-save_pure libs _ _)))

  pub save_agent-Keeps :
      (now : ℕ) (first second : Io) (w : Write) (doc : AgentKeypairDoc)
      → KeepsOrder (save_agent libs now first second w doc)
  unfolding save_agent public_view
  save_agent-Keeps now first second w doc = validated doc.name _ (λ v.
      Keeps-then _ _ (upsert_key-Keeps now first _ _ _) (λ u.
        Keeps-assign _ _ (λ d h. put_agent-WellFormed libs doc.agent_id _ d refl h)
          (Keeps-publish libs _ _ _)))

  pub load_agent-Keeps :
      (now : ℕ) (io : Io) (agent_id : Text) → KeepsOrder (load_agent libs now io agent_id)
  unfolding load_agent
  load_agent-Keeps now io agent_id = Keeps-read _ _ (λ s w. Keeps-require libs _ _ _ (λ r e.
      Keeps-guard (r.revoked || is_revoked s.data' agent_id) revoked _
        (λ t. Keeps-then _ _ (use_key-Keeps now io _) (λ k. Keeps-pure _))))

  pub revoke_agent-Keeps :
      (io : Io) (w : Write) (agent_id : Text) → KeepsOrder (revoke_agent libs io w agent_id)
  unfolding revoke_agent
  revoke_agent-Keeps io w agent_id = Keeps-read _ _ (λ s h. Keeps-require libs _ _ _ (λ r e.
      Keeps-assign _ _
        (λ d k.
          mark_revoked-WellFormed libs agent_id _
            (put_agent-WellFormed libs agent_id _ d (h.ids agent_id r e) k))
        (Keeps-publish libs _ _ _)))

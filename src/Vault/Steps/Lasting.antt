-- ===== src/Vault/Steps/Lasting.antt =====
-- Properties of the data that every call keeps, since none takes a revocation back.
use lockrail.Vault.Keys.{
  record_use, insert_id, revoke, is_some, put_record, put_secret, add_key, upsert_key, set_secret,
  remove_key, delete_secret, use_key,
}
use lockrail.Prelude.{ℕ, ◌||◌, List}
use lockrail.Prelude.Map.{Map, get}
use lockrail.Prelude.Text.{Text, starts_with}
use lockrail.Vault.Agents.{
  save_agent, load_agent, revoke_agent, put_agent, mark_revoked, is_revoked,
}
use lockrail.Vault.Document.{SecretRecord, AgentRecord, VaultData, agent_secret_prefix}
use lockrail.Vault.Error.{credential_exists, invalid_name, revoked}
use lockrail.Vault.Exec.Keeps.{
  Keeps, Keeps-pure, Keeps-guard, Keeps-assign, Keeps-try, Keeps-read, Keeps-then,
}
use lockrail.Vault.Libraries.{Libraries}
use lockrail.Vault.Save.{Io}
use lockrail.Vault.Steps.{
  VaultCall, adding, upserting, setting, removing, deleting, using, revoking, counting,
  saving_agent, loading_agent, revoking_agent, run, dropped,
}
use lockrail.Vault.WellFormed.Operations.{Keeps-save, Keeps-require, Keeps-save_pure, Keeps-publish}

-- Properties of the data that no change to the keys, the agents or the counts, and no revocation,
-- ends.
pub record Lasting (P : VaultData → Type 0) : Type 0 where
  pub keys : (d : VaultData) (m : Map SecretRecord) → P d → P (record d { keys = m })
  pub agents : (d : VaultData) (m : Map AgentRecord) → P d → P (record d { agents = m })
  pub usage : (d : VaultData) (m : List (ℕ × ℕ)) → P d → P (record d { capability_usage = m })
  pub capability :
      (d : VaultData) (id : ℕ)
      → P d
      → P (record d { revoked_capabilities = insert_id id d.revoked_capabilities })
  pub agent : (d : VaultData) (id : Text) → P d → P (mark_revoked id d)

module _ (libs : Libraries) {P : VaultData → Type 0} (l : Lasting P) where
  put : (name : Text) (r : SecretRecord) (d : VaultData) → P d → P (put_record name r d)
  unfolding put_record
  put name r d h = l.keys d _ h

  put_secret-lasts :
      (now : ℕ) (io : Io) (name value : Text) (tags : List Text)
      → Keeps P (put_secret libs now io name value tags)
  unfolding put_secret
  put_secret-lasts now io name value tags =
      Keeps-read _ _
        (λ s w. Keeps-try _ _ (λ m h. Keeps-assign _ _ (put name _) (Keeps-save libs io)))

  upsert_key-lasts :
      (now : ℕ) (io : Io) (name value : Text) (tags : List Text)
      → Keeps P (upsert_key libs now io name value tags)
  unfolding upsert_key
  upsert_key-lasts now io name value tags =
      Keeps-try _ _ (λ u h. put_secret-lasts now io name value tags)

  remove_key-lasts : (io : Io) (name : Text) → Keeps P (remove_key libs io name)
  unfolding remove_key
  remove_key-lasts io name =
      Keeps-read _ _ (λ s w. Keeps-assign _ _ (λ d h. l.keys d _ h) (Keeps-save_pure libs _ _))

  use_key-lasts : (now : ℕ) (io : Io) (name : Text) → Keeps P (use_key libs now io name)
  unfolding use_key
  use_key-lasts now io name = Keeps-read _ _ (λ s w.
      Keeps-require libs _ _ _ (λ r e. Keeps-assign _ _ (put name _) (Keeps-save_pure libs _ _)))

  pub run-lasts : (c : VaultCall) → Keeps P (run libs c)
  unfolding run dropped add_key set_secret delete_secret revoke record_use save_agent load_agent
      revoke_agent put_agent
  run-lasts (adding now io name value) = Keeps-try _ _ (λ u v. Keeps-read _ _ (λ s w.
      Keeps-guard (is_some (get s.data'.keys name)) credential_exists _
        (λ e. Keeps-try _ _ (λ m h. Keeps-assign _ _ (put name _) (Keeps-save libs io)))))
  run-lasts (upserting now io name value tags) = upsert_key-lasts now io name value tags
  run-lasts (setting now io name value env tags) =
      Keeps-try _ _ (λ u h. put_secret-lasts now io name value _)
  run-lasts (removing io name) = Keeps-then _ _ (remove_key-lasts io name) (λ a. Keeps-pure tt)
  run-lasts (deleting io name) =
      Keeps-then _ _
        (Keeps-guard (starts_with name agent_secret_prefix) invalid_name _
          (λ e. remove_key-lasts io name))
        (λ a. Keeps-pure tt)
  run-lasts (using now io name) = Keeps-then _ _ (use_key-lasts now io name) (λ a. Keeps-pure tt)
  run-lasts (revoking io id) = Keeps-assign _ _ (λ d h. l.capability d id h) (Keeps-save libs io)
  run-lasts (counting io id max_uses) =
      Keeps-then _ _
        (Keeps-read _ _ (λ s w.
          Keeps-try _ _
            (λ next e. Keeps-assign _ _ (λ d h. l.usage d _ h) (Keeps-save_pure libs _ _))))
        (λ a. Keeps-pure tt)
  run-lasts (saving_agent now first second w doc) = Keeps-try _ _ (λ u v.
      Keeps-then _ _ (upsert_key-lasts now first _ _ _)
        (λ u. Keeps-assign _ _ (λ d h. l.agents d _ h) (Keeps-publish libs _ _ _)))
  run-lasts (loading_agent now io id) =
      Keeps-then _ _
        (Keeps-read _ _ (λ s w. Keeps-require libs _ _ _ (λ r e.
          Keeps-guard (r.revoked || is_revoked s.data' id) revoked _
            (λ t. Keeps-then _ _ (use_key-lasts now io _) (λ k. Keeps-pure _)))))
        (λ a. Keeps-pure tt)
  run-lasts (revoking_agent io w id) = Keeps-read _ _ (λ s h.
      Keeps-require libs _ _ _
        (λ r e. Keeps-assign _ _ (λ d k. l.agent _ id (l.agents d _ k)) (Keeps-publish libs _ _ _)))

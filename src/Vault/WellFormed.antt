-- ===== src/Vault/WellFormed.antt =====
-- When the data of a vault is in order: each name stands once, and what is recorded with a secret
-- is about this name and this value.
pub mod Operations
use lockrail.Prelude.{
  ◌≡◌, refl, sym, ap, ◌∙◌, inl, inr, ℕ, Bool, true, Option, some, List, Result, ok, err, >>=-eq-ok,
  ok_inj, Bool-cases, arith,
}
use mathlib.Core.Path.{subst}
use lockrail.Prelude.Map.{
  Map, Distinct, get, insert, remove, get-insert, insert-Distinct, get-remove, remove-Distinct,
}
use lockrail.Prelude.Text.{Text, text_eq, text_eq_iff}
use lockrail.Protocol.Seal.Step.{Stop}
use lockrail.Vault.Agents.{put_agent, mark_revoked, is_revoked}
use lockrail.Vault.Document.{SecretMetadata, SecretRecord, AgentRecord, VaultData}
use lockrail.Vault.Keys.{put_record, used}
use lockrail.Vault.Libraries.{Libraries}
use lockrail.Vault.Names.{
  validate_name, classify_kind, redacted_preview, secret_fingerprint, secret_metadata,
}

-- What is recorded with a secret is about its name and its value.
pub record Describes (libs : Libraries) (k : Text) (r : SecretRecord) : Type 0 where
  pub valid : validate_name k ≡ ok tt
  pub name : r.metadata.name ≡ k
  pub kind : r.metadata.kind ≡ classify_kind k
  pub fingerprint : r.metadata.fingerprint ≡ secret_fingerprint libs r.value
  pub preview : redacted_preview libs r.value ≡ ok r.metadata.redacted_preview

pub record WellFormed (libs : Libraries) (d : VaultData) : Type 0 where
  pub keys : Distinct d.keys
  pub agents : Distinct d.agents
  pub describes : (k : Text) (r : SecretRecord) → get d.keys k ≡ some r → Describes libs k r
  pub ids : (id : Text) (a : AgentRecord) → get d.agents id ≡ some a → a.public.agent_id ≡ id

-- An entry of a map after an insertion is the new one or an old one; after a removal, an old one.
module _ {V : Type 0} (P : Text → V → Type 0) where
  All : Map V → Type 0
  All m = (j : Text) (w : V) → get m j ≡ some w → P j w

  insert-All : (m : Map V) (k : Text) (v : V) → All m → P k v → All (insert m k v)
  unfolding All
  insert-All m k v old new j w h = elim (Bool-cases (text_eq k j)) [
    | inl e ↦
        (let same : k ≡ j = ground (arith, text_eq_iff k j) in
          let value : v ≡ w = ground (arith, get-insert m k j v) in
          subst (λ x. P j x) value (subst (λ x. P x v) same new))
    | inr e ↦ old j w (ground (arith, get-insert m k j v))
  ]

  remove-All : (m : Map V) (k : Text) → Distinct m → All m → All (remove m k)
  unfolding All get
  remove-All m k d old j w h = old j w (ground (arith, get-remove m k j d))

module _ (libs : Libraries) where
  pub secret_metadata-Describes :
      (now : ℕ) (name value : Text) (tags : List Text) {m : SecretMetadata}
      → validate_name name ≡ ok tt
      → secret_metadata libs now name value tags ≡ ok m
      → Describes libs name (record { value = value; metadata = m })
  unfolding secret_metadata
  secret_metadata-Describes now name value tags {m} v h =
      let (p, e, s) = >>=-eq-ok (redacted_preview libs value) _ h in
      subst (λ m. Describes libs name (record { value = value; metadata = m })) (ok_inj s)
        (record { valid = v; name = refl; kind = refl; fingerprint = refl; preview = e })

  -- What keeps the value and what is said of it keeps the record in order.
  pub again-Describes :
      (name : Text) (r r' : SecretRecord)
      → Describes libs name r
      → r'.value ≡ r.value
      → r'.metadata.name ≡ r.metadata.name
      → r'.metadata.kind ≡ r.metadata.kind
      → r'.metadata.fingerprint ≡ r.metadata.fingerprint
      → r'.metadata.redacted_preview ≡ r.metadata.redacted_preview
      → Describes libs name r'
  again-Describes name r r' h v n k f p = record {
    valid = h.valid;
    name = n ∙ h.name;
    kind = k ∙ h.kind;
    fingerprint = f ∙ h.fingerprint ∙ ap (secret_fingerprint libs) (sym v);
    preview = ap (redacted_preview libs) v ∙ h.preview ∙ ap ok (sym p);
  }

  pub put_record-WellFormed :
      (name : Text) (r : SecretRecord) (d : VaultData)
      → Describes libs name r
      → WellFormed libs d
      → WellFormed libs (put_record name r d)
  unfolding put_record All
  put_record-WellFormed name r d new h = record {
    agents = h.agents;
    ids = h.ids;
    keys = insert-Distinct d.keys name r h.keys;
    describes = insert-All (Describes libs) d.keys name r h.describes new;
  }

  pub remove-WellFormed :
      (name : Text) (d : VaultData)
      → WellFormed libs d
      → WellFormed libs (record d { keys = remove d.keys name })
  unfolding All
  remove-WellFormed name d h = record {
    agents = h.agents;
    ids = h.ids;
    keys = remove-Distinct d.keys name h.keys;
    describes = remove-All (Describes libs) d.keys name h.keys h.describes;
  }

  pub put_agent-WellFormed :
      (id : Text) (a : AgentRecord) (d : VaultData)
      → a.public.agent_id ≡ id
      → WellFormed libs d
      → WellFormed libs (put_agent id a d)
  unfolding put_agent All
  put_agent-WellFormed id a d new h = record {
    keys = h.keys;
    describes = h.describes;
    agents = insert-Distinct d.agents id a h.agents;
    ids = insert-All (λ k b. b.public.agent_id ≡ k) d.agents id a h.ids new;
  }

  pub mark_revoked-WellFormed :
      (id : Text) (d : VaultData) → WellFormed libs d → WellFormed libs (mark_revoked id d)
  unfolding mark_revoked
  mark_revoked-WellFormed id d h = elim (Bool-cases (is_revoked d id)) [
    | inl e ↦ rw e h
    | inr e ↦
        rw e (record { keys = h.keys; agents = h.agents; describes = h.describes; ids = h.ids })
  ]

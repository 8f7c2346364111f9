-- ===== src/Vault/Steps/Saved.antt =====
-- Loading the agent that was saved.
use lockrail.Prelude.{◌≡◌, refl, ℕ, false, inl, inr, some, List, [], ◌∷◌, ◌++◌, ok, Result-cases}
use lockrail.Prelude.Map.{get, get-insert}
use lockrail.Prelude.Text.{Text, codes, text_eq_refl}
use lockrail.Protocol.Agent.{AgentKeypairDoc, public_view}
use lockrail.Vault.Agents.{save_agent, load_agent, put_agent, is_revoked, loaded}
use lockrail.Vault.Document.{SecretRecord, AgentRecord, VaultData, agent_secret_prefix}
use lockrail.Vault.Exec.{
  Session, Write, write_public_agent_doc, gets, lift, modify, pure, ◌>>=◌, ◌>>◌,
}
use lockrail.Vault.Exec.Keeps.{Keeps}
use lockrail.Vault.Keys.{require, use_key, upsert_key, put_secret, put_record, created_at_of}
use lockrail.Vault.Libraries.{Libraries}
use lockrail.Vault.Names.{validate_name, secret_metadata}
use lockrail.Vault.Save.{Io, save}
use lockrail.Vault.WellFormed.Operations.{Keeps-save, Keeps-publish}

-- The vault holds the agent's private key, and the agent is not revoked.
record HasKey (doc : AgentKeypairDoc) (d : VaultData) : Type 0 where
  record' : SecretRecord
  found : get d.keys (agent_secret_prefix ++ doc.agent_id) ≡ some record'
  value : record'.value ≡ doc.private_key
  free : is_revoked d doc.agent_id ≡ false

-- And its public document.
record Holds (doc : AgentKeypairDoc) (d : VaultData) : Type 0 where
  key : HasKey doc d
  agent : AgentRecord
  found : get d.agents doc.agent_id ≡ some agent
  public : agent.public ≡ public_view doc
  unrevoked : agent.revoked ≡ false

module _ (libs : Libraries) (doc : AgentKeypairDoc) where
  put_record-HasKey :
      (r : SecretRecord) (d : VaultData)
      → r.value ≡ doc.private_key
      → is_revoked d doc.agent_id ≡ false
      → HasKey doc (put_record (agent_secret_prefix ++ doc.agent_id) r d)
  unfolding put_record is_revoked
  put_record-HasKey r d v f = record {
    record' = r;
    found =
        rw
          (
            get-insert d.keys (agent_secret_prefix ++ doc.agent_id)
                (agent_secret_prefix ++ doc.agent_id) r,
            text_eq_refl (agent_secret_prefix ++ doc.agent_id),
          )
          refl;
    value = v;
    free = f;
  }

  put_agent-Holds :
      (now : ℕ) (d : VaultData)
      → HasKey doc d
      → Holds doc (
          put_agent doc.agent_id
            (record { public = public_view doc; updated_at = now; revoked = false })
            d)
  unfolding put_agent is_revoked
  put_agent-Holds now d h = record {
    key = record { record' = h.record'; found = h.found; value = h.value; free = h.free };
    agent = record { public = public_view doc; updated_at = now; revoked = false };
    found = rw (get-insert d.agents doc.agent_id doc.agent_id _, text_eq_refl doc.agent_id) refl;
    public = refl;
    unrevoked = refl;
  }

  -- What `upsert_key` leaves, where it returns.
  upsert_key-HasKey :
      (now : ℕ) (io : Io) (tags : List Text) (s : Session)
      → is_revoked s.data' doc.agent_id ≡ false
      → (upsert_key libs now io (agent_secret_prefix ++ doc.agent_id) doc.private_key tags s).0
        ≡ ok tt
      → HasKey doc
          (upsert_key libs now io
            (agent_secret_prefix ++ doc.agent_id)
            doc.private_key
            tags
            s).1.data'
  unfolding upsert_key put_secret ◌>>=◌ gets lift modify
  upsert_key-HasKey now io tags s f done =
      elim (Result-cases (validate_name (agent_secret_prefix ++ doc.agent_id))) [
        | inr (x, e) ↦ absurd (cc (rw e at done))
        | inl (u, e) ↦
            elim (Result-cases (
              secret_metadata libs now (agent_secret_prefix ++ doc.agent_id) doc.private_key
                tags)) [
                  | inr (x, e') ↦ absurd (cc (rw (e, e') at done))
                  | inl (m, e') ↦
                      rw (e, e')
                        ((Keeps-save libs {P = HasKey doc} io).at
                          (record s {
                            data' =
                                put_record (agent_secret_prefix ++ doc.agent_id)
                                  (record {
                                    value = doc.private_key;
                                    metadata = record m {
                                      created_at =
                                          created_at_of now (
                                            get s.data'.keys (agent_secret_prefix ++ doc.agent_id));
                                      updated_at = now;
                                    };
                                  })
                                  s.data';
                          })
                          (put_record-HasKey _ s.data' refl f))
                ]
      ]

  ending :
      {P : VaultData → Type 0} (io : Io) (w : Write)
      → Keeps P (save libs io >> write_public_agent_doc w (public_view doc))
  ending io w = Keeps-publish libs _ _ _

  save_agent-Holds :
      (now : ℕ) (first second : Io) (w : Write) (s : Session)
      → is_revoked s.data' doc.agent_id ≡ false
      → (save_agent libs now first second w doc s).0 ≡ ok tt
      → Holds doc (save_agent libs now first second w doc s).1.data'
  unfolding save_agent ◌>>=◌ lift modify public_view
  save_agent-Holds now first second w s f done = elim (Result-cases (validate_name doc.name)) [
    | inr (x, e) ↦ absurd (cc (rw e at done))
    | inl (u, e) ↦ elim (Result-cases (upsert_key libs now first id doc.private_key tags s).0) [
      | inr (x, e') ↦ absurd (cc (rw (e, e') at done))
      | inl (u', e') ↦
          rw (e, e')
            ((ending {P = Holds doc} second w).at
              (record t {
                data' =
                    put_agent doc.agent_id
                      (record { public = public_view doc; updated_at = now; revoked = false })
                      t.data';
              })
              (put_agent-Holds now t.data' (upsert_key-HasKey now first tags s f e')))
    ]
  ]
    where
      id : Text
      id = agent_secret_prefix ++ doc.agent_id

      tags : List Text
      tags = codes "agent" ∷ doc.kind ∷ []

      t : Session
      t = (upsert_key libs now first id doc.private_key tags s).1

  -- The session can be saved once the use of the agent's key is noted in its record.
  abbrev pub Storable : (later : ℕ) → Io → Session → Type 0
  Storable later io u =
      (r : SecretRecord)
      → get u.data'.keys (agent_secret_prefix ++ doc.agent_id) ≡ some r
      → (save libs io (record u {
        data' =
            put_record (agent_secret_prefix ++ doc.agent_id)
              (record r {
                metadata = record r.metadata { last_used_at = some later; updated_at = later };
              })
              u.data';
      })).0
        ≡ ok tt

  load_agent-Holds :
      (later : ℕ) (io : Io) (u : Session)
      → Holds doc u.data'
      → Storable later io u
      → (load_agent libs later io doc.agent_id u).0 ≡ ok doc
  unfolding load_agent use_key require ◌>>=◌ gets lift modify pure loaded public_view
  load_agent-Holds later io u h saves =
      rw
        (
          h.found,
          h.unrevoked,
          h.key.free,
          h.key.found,
          saves h.key.record' h.key.found,
          h.public,
          h.key.value,
        )
        refl

  -- Where the agent is not revoked, `save_agent` has returned, and the session that it leaves can
  -- be saved once more, with the use of the agent's key noted, `load_agent` returns the document
  -- that was saved.
  pub load_agent-save_agent :
      (now later : ℕ) (first second third : Io) (w : Write) (s : Session)
      → is_revoked s.data' doc.agent_id ≡ false
      → (save_agent libs now first second w doc s).0 ≡ ok tt
      → Storable later third (save_agent libs now first second w doc s).1
      → (load_agent libs later third doc.agent_id (save_agent libs now first second w doc s).1).0
        ≡ ok doc
  load_agent-save_agent now later first second third w s f done saves =
      load_agent-Holds later third _ (save_agent-Holds now first second w s f done) saves

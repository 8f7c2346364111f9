-- ===== src/Relay/Admit/Sound.antt =====
-- What holds where the vault's block of `perform_relay` in crates/lockrail-relay/src/lib.rs returns.
use lockrail.Prelude.{
  ℕ, ◌≡◌, refl, true, false, inl, inr, Option, none, some, ok, Bool-cases, Option-cases,
  Result-cases, ok_or, map_err-eq-ok, ok_or-eq-ok, >>=-eq-ok, ok_inj, length, ◌==◌,
}
use mathlib.Core.Path.{subst}
use lockrail.Prelude.Map.{get}
use lockrail.Prelude.Text.{Text}
use lockrail.Protocol.Claims.{CapabilityClaims}
use lockrail.Protocol.Proof.{AccessProof, AccessProofPayload}
use lockrail.Protocol.Proof
use lockrail.Protocol.Token.{CapabilityToken}
use lockrail.Protocol.Token
use lockrail.Relay.Admit.{Admission, admit}
use lockrail.Relay.Checks.{proof_payload, needs_proof}
use lockrail.Relay.Request.{RelayRequest}
use lockrail.Relay.World.{Outside}
use lockrail.Vault.Document.{SecretRecord}
use lockrail.Vault.Exec.{Session, Exec, gets, lift, pure, modify, ◌>>=◌}
use lockrail.Vault.Keys.{
  issuer_public_key, signing_key, use_key, revoked_list, require, put_record, used,
}
use lockrail.Vault.Libraries.{Libraries}
use lockrail.Vault.Names.{from_vault, from_protocol}
use lockrail.Vault.Error.{missing_credential, policy_denied}
use lockrail.Protocol.Crypto.{b64d}
use lockrail.Vault.Save.{Io, save}

-- The proof that the request carries is for it, under the agent's key of the capability.
pub record Proven (o : Outside) (now : ℕ) (req : RelayRequest) (body_hash : Text)
    (claims : CapabilityClaims) (payload : Option AccessProofPayload) : Type 0 where
  pub proof : AccessProof
  pub agent_public_key : Text
  pub carried : req.proof ≡ some proof
  pub bound : claims.agent_public_key ≡ some agent_public_key
  pub kept : payload ≡ some proof.payload
  pub verified :
      Proof.verify o.libs.crypto o.proof_value now proof agent_public_key req.capability req.method
        req.upstream body_hash claims.task_id claims.purpose
      ≡ ok tt

pub record Admitted (o : Outside) (now : ℕ) (req : RelayRequest) (body_hash : Text) (s : Session)
    (a : Admission) : Type 0 where
  pub token : CapabilityToken
  pub issuer : Text
  pub same : token.claims ≡ a.claims
  pub issuer_key : (issuer_public_key o.libs s).0 ≡ ok issuer
  pub verified :
      Token.verify o.libs.crypto o.codec now req.capability issuer (revoked_list s.data') ≡ ok token
  pub proven : needs_proof a.claims ≡ true → Proven o now req body_hash a.claims a.proof_payload
  pub unproven : needs_proof a.claims ≡ false → a.proof_payload ≡ none
  pub record' : SecretRecord
  pub held : get s.data'.keys a.claims.key ≡ some record'
  pub secret : a.secret ≡ record'.value

module _ {A B : Type 0} where
  -- What a chain returns comes from what its first step returns.
  bind-eq-ok :
      (m : Exec A) (f : A → Exec B) (s : Session) {b : B}
      → ((m >>= f) s).0 ≡ ok b
      → (a : A) × ((m s).0 ≡ ok a) × ((f a (m s).1).0 ≡ ok b)
  unfolding ◌>>=◌
  bind-eq-ok m f s h = elim (Result-cases (m s).0) [
    | inl (a, e) ↦ (a, e, rw e at h)
    | inr (x, e) ↦ absurd (cc (rw e at h))
  ]

module _ (o : Outside) (now : ℕ) (req : RelayRequest) (body_hash : Text) where
  proof_payload-Proven :
      (claims : CapabilityClaims) {p : Option AccessProofPayload}
      → needs_proof claims ≡ true
      → proof_payload o now req claims body_hash ≡ ok p
      → Proven o now req body_hash claims p
  unfolding proof_payload
  proof_payload-Proven claims {p} n h =
      let (proof, e, h₁) =
        >>=-eq-ok (from_vault (ok_or req.proof missing_credential)) _ (rw n at h) in
      let (key, e', h₂) =
        >>=-eq-ok (from_vault (ok_or claims.agent_public_key policy_denied)) _ h₁ in
      let (u, v, h₃) =
        >>=-eq-ok
          (from_protocol (
            Proof.verify o.libs.crypto o.proof_value now proof key req.capability req.method
              req.upstream body_hash claims.task_id claims.purpose))
          _ h₂ in
      record {
        proof = proof;
        agent_public_key = key;
        carried = ok_or-eq-ok req.proof missing_credential (map_err-eq-ok _ _ e);
        bound = ok_or-eq-ok claims.agent_public_key policy_denied (map_err-eq-ok _ _ e');
        kept = cc;
        verified = map_err-eq-ok _ _ v;
      }

  proof_payload-none :
      (claims : CapabilityClaims) {p : Option AccessProofPayload}
      → needs_proof claims ≡ false
      → proof_payload o now req claims body_hash ≡ ok p
      → p ≡ none
  unfolding proof_payload
  proof_payload-none claims n h = cc (rw n at h)

module _ (libs : Libraries) (s : Session) where
  -- The keys are read and nothing is changed.
  signing_key-still : (signing_key libs s).1 ≡ s
  unfolding signing_key ◌>>=◌ gets lift pure
  signing_key-still =
      elim (Result-cases (from_protocol (b64d libs.crypto s.data'.signing_private_key))) [
        | inr (x, e) ↦ rw e refl
        | inl (raw, e) ↦ elim (Bool-cases (length raw == 32)) [
          | inl t ↦ rw (e, t) refl
          | inr f ↦ rw (e, f) refl
        ]
      ]

  issuer_public_key-still : (issuer_public_key libs s).1 ≡ s
  unfolding issuer_public_key ◌>>=◌ pure
  issuer_public_key-still = elim (Result-cases (signing_key libs s).0) [
    | inr (x, e) ↦ rw e signing_key-still
    | inl (k, e) ↦ rw e signing_key-still
  ]

  use_key-held :
      (now : ℕ) (io : Io) (name : Text) {secret : Text}
      → (use_key libs now io name s).0 ≡ ok secret
      → (r : SecretRecord) × (get s.data'.keys name ≡ some r) × (secret ≡ r.value)
  unfolding use_key require ◌>>=◌ gets lift modify pure
  use_key-held now io name h = elim (Option-cases (get s.data'.keys name)) [
    | inl n ↦ absurd (cc (rw n at h))
    | inr (r, e) ↦
        elim (Result-cases
          (save libs io (record s { data' = put_record name (used now r) s.data' })).0) [
            | inr (x, e') ↦ absurd (cc (rw (e, e') at h))
            | inl (u, e') ↦ (r, e, cc (rw (e, e') at h))
          ]
  ]

module _ (o : Outside) (now : ℕ) (io : Io) (req : RelayRequest) (body_hash : Text)
    (s : Session) where
  pub admit-Admitted :
      {a : Admission} → (admit o now io req body_hash s).0 ≡ ok a → Admitted o now req body_hash s a
  unfolding admit gets lift pure
  admit-Admitted {a} h =
      let (issuer, ei, h₁) = bind-eq-ok (issuer_public_key o.libs) _ s h in
      let (u, eu, h₂) =
        bind-eq-ok (gets (λ s. s)) _ s (rw (issuer_public_key-still o.libs s) at h₁) in
      let (token, et, h₃) =
        bind-eq-ok
          (lift (
            from_protocol (
              Token.verify o.libs.crypto o.codec now req.capability issuer (revoked_list s.data'))))
          _ s (rw (← ok_inj eu) at h₂) in
      let (proof, ep, h₄) =
        bind-eq-ok (lift (proof_payload o now req token.claims body_hash)) _ s h₃ in
      let (signer, es, h₅) = bind-eq-ok (signing_key o.libs) _ s h₄ in
      let (secret, ek, h₆) =
        bind-eq-ok (use_key o.libs now io token.claims.key) _ s
          (rw (signing_key-still o.libs s) at h₅) in
      let (r, held, same) = use_key-held o.libs s now io token.claims.key ek in
      subst (λ a. Admitted o now req body_hash s a) (ok_inj h₆)
        (record {
          token = token;
          issuer = issuer;
          same = refl;
          issuer_key = ei;
          verified = map_err-eq-ok _ _ et;
          proven = λ n. proof_payload-Proven o now req body_hash token.claims n ep;
          unproven = λ n. proof_payload-none o now req body_hash token.claims n ep;
          record' = r;
          held = held;
          secret = same;
        })

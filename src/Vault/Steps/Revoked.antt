-- ===== src/Vault/Steps/Revoked.antt =====
-- What is revoked stays revoked, whatever else happens to the vault.
use lockrail.Prelude.{
  ◌≡◌, ◌≢◌, refl, sym, ℕ, true, ◌⊎◌, inl, inr, List, any, ok, err, Option-cases, Bool-cases, arith,
  ◌==◌, Member,
}
use mathlib.Core.Path.{subst}
use lockrail.Prelude.Membership.{any-text_iff, any-number_iff}
use lockrail.Prelude.Map.{get}
use lockrail.Prelude.Text.{Text}
use lockrail.Protocol.Token.{CapabilityToken, ClaimsCodec, verify}
use lockrail.Protocol.Token.Accepts.{ClockFits, token_verify_iff}
use lockrail.Vault.Agents.{load_agent, revoke_agent, put_agent, mark_revoked, is_revoked}
use lockrail.Vault.Document.{VaultData, AgentRecord}
use lockrail.Vault.Error.{missing_credential, revoked}
use lockrail.Vault.Exec.{
  refused, Session, Exec, Write, write_public_agent_doc, gets, lift, refuse, modify, ◌>>=◌, ◌>>◌,
}
use lockrail.Vault.Exec.Keeps.{Keeps}
use lockrail.Vault.Keys.{require, revoke, insert_id, revoked_list}
use lockrail.Vault.Libraries.{Libraries}
use lockrail.Vault.Save.{Io, save}
use lockrail.Vault.Steps.{Reaches, Reaches-keeps}
use lockrail.Vault.Steps.Lasting.{Lasting, run-lasts}
use lockrail.Vault.WellFormed.Operations.{Keeps-save, Keeps-publish}

abbrev AgentOut : Text → VaultData → Type 0
AgentOut id d = Member id d.revoked_agents

abbrev CapabilityOut : ℕ → VaultData → Type 0
CapabilityOut id d = Member id d.revoked_capabilities

-- What a set has with an element that is there already, or that is put in front.
there : {A : Type 0} (xs : List A) (x j : A) → Member x xs → (Member j xs ⊎ (x ≡ j)) → Member j xs
there xs x j m (inl h) = h
there xs x j m (inr e) = subst (λ y. Member y xs) e m

mark_revoked-Member :
    (d : VaultData) (id j : Text)
    → (Member j d.revoked_agents ⊎ (id ≡ j))
    → Member j (mark_revoked id d).revoked_agents
unfolding mark_revoked is_revoked
mark_revoked-Member d id j h = elim (Bool-cases (is_revoked d id)) [
  | inl e ↦ rw e (there d.revoked_agents id j ((any-text_iff id d.revoked_agents).0 e) h)
  | inr e ↦ rw e (ground (arith, h))
]

mark_revoked-revoked_capabilities :
    (d : VaultData) (id : Text) → (mark_revoked id d).revoked_capabilities ≡ d.revoked_capabilities
unfolding mark_revoked
mark_revoked-revoked_capabilities d id = elim (Bool-cases (is_revoked d id)) [
  | inl e ↦ rw e refl
  | inr e ↦ rw e refl
]

insert_id-Member :
    (id j : ℕ) (ids : List ℕ) → (Member j ids ⊎ (id ≡ j)) → Member j (insert_id id ids)
unfolding insert_id
insert_id-Member id j ids h = elim (Bool-cases (any (λ i. i == id) ids)) [
  | inl e ↦ rw e (there ids id j ((any-number_iff id ids).0 e) h)
  | inr e ↦ rw e (ground (arith, h))
]

AgentOut-Lasting : (id : Text) → Lasting (AgentOut id)
AgentOut-Lasting id = record {
  keys = λ d m h. h;
  agents = λ d m h. h;
  usage = λ d m h. h;
  capability = λ d c h. h;
  agent = λ d j h. mark_revoked-Member d j id (inl h);
}

CapabilityOut-Lasting : (id : ℕ) → Lasting (CapabilityOut id)
CapabilityOut-Lasting id = record {
  keys = λ d m h. h;
  agents = λ d m h. h;
  usage = λ d m h. h;
  capability = λ d c h. insert_id-Member c id _ (inl h);
  agent = λ d j h. rw (mark_revoked-revoked_capabilities d j) h;
}

module _ (libs : Libraries) (s : Session) where
  revoke-out : (io : Io) (id : ℕ) → CapabilityOut id (revoke libs io id s).1.data'
  unfolding revoke ◌>>=◌ save
  revoke-out io id =
      (Keeps-save libs {P = CapabilityOut id} io).at
        (record s {
          data' = record s.data' {
            revoked_capabilities = insert_id id s.data'.revoked_capabilities;
          };
        })
        (insert_id-Member id id _ (inr refl))

  -- The steps of `revoke_agent` behind the change of the data.
  ending : Io → Write → AgentRecord → Exec (Unit {0})
  ending io w r = save libs io >> write_public_agent_doc w (record r.public { revoked = true })

  ending-Keeps :
      {P : VaultData → Type 0} (io : Io) (w : Write) (r : AgentRecord) → Keeps P (ending io w r)
  unfolding ending
  ending-Keeps io w r = Keeps-publish libs _ _ _

  revoke_agent-out :
      (io : Io) (w : Write) (id : Text)
      → (revoke_agent libs io w id s).0 ≡ ok tt
      → AgentOut id (revoke_agent libs io w id s).1.data'
  unfolding revoke_agent ending require ◌>>=◌ gets lift modify
  revoke_agent-out io w id done = elim (Option-cases (get s.data'.agents id)) [
    | inl n ↦ absurd (cc (rw n at done))
    | inr (r, e) ↦ rw e (
        (ending-Keeps {P = AgentOut id} io w r).at
          (record s {
            data' = mark_revoked id (put_agent id (record r { revoked = true }) s.data');
          })
          (mark_revoked-Member _ id id (inr refl)))
  ]

  -- `load_agent` of an agent that is out.
  load_agent-out :
      (now : ℕ) (io : Io) (id : Text)
      → AgentOut id s.data'
      → ((load_agent libs now io id s).0 ≡ err (refused revoked))
        ⊎ ((load_agent libs now io id s).0 ≡ err (refused missing_credential))
  unfolding load_agent require ◌>>=◌ gets lift refuse is_revoked
  load_agent-out now io id out = elim (Option-cases (get s.data'.agents id)) [
    | inl n ↦ inr (rw n refl)
    | inr (r, e) ↦ inl (elim (Bool-cases r.revoked) [
      | inl t ↦ rw (e, t) refl
      | inr f ↦ rw (e, f, (any-text_iff id s.data'.revoked_agents).1 out) refl
    ])
  ]

module _ (libs : Libraries) (s t : Session) where
  -- Once `revoke_agent` has returned for an agent, whatever calls come after it, and whether they
  -- return or fail, `load_agent` of this agent is refused, as revoked or as missing.
  pub revoke_agent_lasts :
      (io later : Io) (w : Write) (now : ℕ) (id : Text)
      → (revoke_agent libs io w id s).0 ≡ ok tt
      → Reaches libs (revoke_agent libs io w id s).1 t
      → ((load_agent libs now later id t).0 ≡ err (refused revoked))
        ⊎ ((load_agent libs now later id t).0 ≡ err (refused missing_credential))
  revoke_agent_lasts io later w now id done r = load_agent-out libs t now later id (
      Reaches-keeps libs (AgentOut id) (run-lasts libs (AgentOut-Lasting id)) _ t r
        (revoke_agent-out libs s io w id done))

  -- After `revoke` of a capability, whether it returns or fails, and whatever calls come after
  -- it, a token that is verified against the list of the vault is of another capability, at a
  -- clock that is two minutes or more from the end of its type.
  pub revoke_lasts :
      (codec : ClaimsCodec) (io : Io) (id now : ℕ) (text issuer_public : Text)
      (token : CapabilityToken)
      → ClockFits now
      → Reaches libs (revoke libs io id s).1 t
      → verify libs.crypto codec now text issuer_public (revoked_list t.data') ≡ ok token
      → token.claims.cap_id ≢ id
  unfolding revoked_list
  revoke_lasts codec io id now text issuer_public token fits r accepted same =
      let out =
        Reaches-keeps libs (CapabilityOut id) (run-lasts libs (CapabilityOut-Lasting id)) _ t r
          (revoke-out libs s io id) in
      let a =
        (token_verify_iff libs.crypto codec now text issuer_public (revoked_list t.data') token
            fits).0
          accepted in
      a.valid.listed_nowhere (subst (λ i. Member i t.data'.revoked_capabilities) (sym same) out)

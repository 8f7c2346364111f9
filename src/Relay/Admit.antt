-- ===== src/Relay/Admit.antt =====
-- The block of `perform_relay` in crates/lockrail-relay/src/lib.rs that holds the vault's lock.
pub mod Sound
use lockrail.Prelude.{ℕ, Option}
use lockrail.Prelude.Text.{Text}
use lockrail.Protocol.Claims.{CapabilityClaims}
use lockrail.Protocol.Proof.{AccessProofPayload}
use lockrail.Protocol.Token
use lockrail.Relay.Checks.{proof_payload}
use lockrail.Relay.Request.{RelayRequest}
use lockrail.Relay.World.{Outside}
use lockrail.Vault.Exec.{Session, Exec, pure, lift, gets, ◌>>=◌}
use lockrail.Vault.Keys.{issuer_public_key, signing_key, use_key, revoked_list}
use lockrail.Vault.Names.{from_protocol}
use lockrail.Vault.Save.{Io}

pub record Admission : Type 0 where
  pub claims : CapabilityClaims
  pub proof_payload : Option AccessProofPayload
  pub receipt_signer : Text
  pub secret : Text

unfoldable pub admit : Outside → (now : ℕ) → Io → RelayRequest → (body_hash : Text) → Exec Admission
admit o now io req body_hash = do
  issuer ← issuer_public_key o.libs
  s ← gets (λ s. s)
  token ← lift (
      from_protocol
        (Token.verify o.libs.crypto o.codec now req.capability issuer (revoked_list s.data')))
  proof ← lift (proof_payload o now req token.claims body_hash)
  signer ← signing_key o.libs
  secret ← use_key o.libs now io token.claims.key
  pure (record {
    claims = token.claims;
    proof_payload = proof;
    receipt_signer = signer;
    secret = secret;
  })

-- ===== src/Relay/Checks.antt =====
-- The parts of `perform_relay` in crates/lockrail-relay/src/lib.rs that keep no state, and
-- `inject_secret`.
use mathlib.Core.Option.{get_or}
use lockrail.Prelude.{
  ℕ, Bool, ◌||◌, Option, none, some, List, [], ◌∷◌, ◌++◌, length, if◌then◌else◌, Result, ok, ok_or,
  map_err, reject_if, not, ◌>>=◌, ◌>>◌,
}
use lockrail.Prelude.Map.{Map, insert}
use lockrail.Prelude.Text.{Text}
use lockrail.Protocol.Claims.{CapabilityClaims, is_some}
use lockrail.Protocol.Enforce.{enforce_request, enforce_body_size, enforce_content_type}
use lockrail.Protocol.Error.{Outcome}
use lockrail.Protocol.Net.Addr.{IpAddr}
use lockrail.Protocol.Proof
use lockrail.Protocol.Proof.{AccessProofPayload}
use lockrail.Protocol.Url.{Url}
use lockrail.Relay.Rebinding.{guard_addresses}
use lockrail.Relay.Refusal.{RelayError, protocol, guard, unresolved, header, no_host, client}
use lockrail.Relay.Refusal
use lockrail.Relay.Request.{RelayRequest, content_type}
use lockrail.Relay.World.{Outside, Body, no_body, of_json, of_text, Sent}
use lockrail.Vault.Error.{missing_credential, policy_denied}
use lockrail.Vault.Exec.{Failure}
use lockrail.Vault.Names.{from_vault, from_protocol}

abbrev relay_error : {A : Type 0} → Outcome A → Result RelayError A
relay_error r = map_err protocol r

-- Whether a capability asks for a proof.
abbrev pub needs_proof : CapabilityClaims → Bool
needs_proof claims = claims.require_proof || is_some claims.agent_public_key

unfoldable pub body_of : RelayRequest → Body
body_of req = elim req.json_body [
  | some j ↦ of_json j
  | none ↦ elim req.data_body [ some text ↦ of_text text | none ↦ no_body ]
]

module _ (o : Outside) (now : ℕ) (req : RelayRequest) where
  -- The payload of the proof, where the capability asks for one.
  unfoldable pub proof_payload :
      CapabilityClaims → (body_hash : Text) → Result Failure (Option AccessProofPayload)
  proof_payload claims body_hash =
      if needs_proof claims
      then (do
        proof ← from_vault (ok_or req.proof missing_credential)
        agent_public_key ← from_vault (ok_or claims.agent_public_key policy_denied)
        from_protocol (
            Proof.verify o.libs.crypto o.proof_value now proof agent_public_key req.capability
              req.method req.upstream body_hash claims.task_id claims.purpose)
        ok (some proof.payload))
      else ok none

  -- The request against the claims, and the addresses that its host has now.
  unfoldable pub checked_addrs :
      CapabilityClaims → (body : Text) → Result RelayError (Url × List IpAddr)
  checked_addrs claims body = do
    url ← relay_error (enforce_request o.crate claims req.method req.upstream)
    relay_error (enforce_body_size claims (length body))
    relay_error (enforce_content_type claims (content_type req))
    addrs ←
        ok_or (o.resolve (get_or url.host_str []) (get_or url.port_or_known_default 443)) unresolved
    map_err guard (guard_addresses addrs)
    ok (url, addrs)

  -- `headers.insert`, with a name and a value that http accepts.
  unfoldable pub insert_header : Map Text → (key value : Text) → Result RelayError (Map Text)
  insert_header headers key value = do
    k ← ok_or (o.header_name key) header
    v ← ok_or (o.header_value value) header
    ok (insert headers k v)

  pub insert_headers : Map Text → Map Text → Result RelayError (Map Text)
  unfolding insert_header
  insert_headers headers [] = ok headers
  insert_headers headers ((key, value) ∷ m) =
      insert_header headers key value >>= λ h. insert_headers h m

  unfoldable pub inject_secret : CapabilityClaims → (secret : Text) → Result RelayError (Map Text)
  unfolding insert_headers
  inject_secret claims secret = do
    headers ← insert_headers [] req.headers
    insert_header headers claims.inject_header (claims.inject_prefix ++ secret)

  -- The request to send, once its method, its host and the client are there.
  unfoldable pub built : Url × List IpAddr → Map Text → Result RelayError Sent
  unfolding body_of
  built (url, addrs) headers = do
    method ← ok_or (o.method req.method) Refusal.method
    host ← ok_or url.host_str no_host
    reject_if (not o.client) client
    ok (record {
      url = url;
      method = method;
      headers = headers;
      body = body_of req;
      host = host;
      addrs = addrs;
    })

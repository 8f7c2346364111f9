-- ===== src/Relay/Perform/Checked.antt =====
-- What the checks of `perform_relay` in crates/lockrail-relay/src/lib.rs find, and what it builds.
use mathlib.Core.Path.{subst}
use mathlib.Core.Option.{get_or}
use lockrail.Prelude.{
  ℕ, ◌≤◌, ◌++◌, ◌≡◌, refl, sym, false, not, inl, inr, Option, none, some, List, [], ok,
  Option-cases, ok_or, map_err, reject_if, map_err-eq-ok, ok_or-eq-ok, >>=-eq-ok, ok_inj, length,
  All,
}
use lockrail.Prelude.Map.{Map, get, get-insert}
use lockrail.Prelude.Text.{Text, codes, text_eq_refl}
use lockrail.Protocol.Claims.{CapabilityClaims}
use lockrail.Protocol.Enforce.{enforce_request, enforce_body_size, enforce_content_type}
use lockrail.Protocol.Enforce.Limits.{enforce_body_size_iff}
use lockrail.Protocol.Enforce.Permits.{Permits, enforce_request_iff}
use lockrail.Protocol.Json.{Json, Fields}
use lockrail.Protocol.Net.Addr.{IpAddr}
use lockrail.Protocol.Net.{is_blocked_ip}
use lockrail.Protocol.Proof.{AccessProofPayload}
use lockrail.Protocol.Url.{Url}
use lockrail.Relay.Checks.{
  checked_addrs, inject_secret, insert_header, insert_headers, body_of, built,
}
use lockrail.Relay.Perform.{agent_json}
use lockrail.Relay.Rebinding.{guard_addresses, guard_addresses_iff}
use lockrail.Relay.Refusal.{protocol, guard, unresolved, no_host, client, header, json}
use lockrail.Relay.Refusal
use lockrail.Relay.Request.{RelayRequest, body_bytes, content_type}
use lockrail.Relay.World.{Outside, Body, no_body, of_json, of_text, Sent}

-- The request and its addresses, as the claims and the guard want them.
pub record Checked (o : Outside) (req : RelayRequest) (claims : CapabilityClaims) (body : Text)
    (url : Url) (addrs : List IpAddr) : Type 0 where
  pub permitted : Permits o.crate claims req.method req.upstream url
  pub sized : (limit : ℕ) → claims.max_body_size ≡ some limit → length body ≤ limit
  pub typed : enforce_content_type claims (content_type req) ≡ ok tt
  pub resolved :
      o.resolve (get_or url.host_str []) (get_or url.port_or_known_default 443) ≡ some addrs
  pub open_addresses : All (λ ip. is_blocked_ip ip ≡ false) addrs

module _ (o : Outside) (now : ℕ) (req : RelayRequest) (claims : CapabilityClaims)
    (body : Text) where
  pub checked_addrs-Checked :
      {c : Url × List IpAddr}
      → checked_addrs o now req claims body ≡ ok c
      → Checked o req claims body c.0 c.1
  unfolding checked_addrs
  checked_addrs-Checked h =
      let (url, e, h₁) =
        >>=-eq-ok (map_err protocol (enforce_request o.crate claims req.method req.upstream)) _ h in
      let (u, e₁, h₂) =
        >>=-eq-ok (map_err protocol (enforce_body_size claims (length body))) _ h₁ in
      let (u', e₂, h₃) =
        >>=-eq-ok (map_err protocol (enforce_content_type claims (content_type req))) _ h₂ in
      let (addrs, e₃, h₄) =
        >>=-eq-ok
          (ok_or (o.resolve (get_or url.host_str []) (get_or url.port_or_known_default 443))
            unresolved)
          _ h₃ in
      let (u'', e₄, h₅) = >>=-eq-ok (map_err guard (guard_addresses addrs)) _ h₄ in
      subst (λ c. Checked o req claims body c.0 c.1) (ok_inj h₅)
        (record {
          permitted =
              (enforce_request_iff o.crate claims req.method req.upstream url).0
                (map_err-eq-ok _ _ e);
          sized = (enforce_body_size_iff claims (length body)).0 (map_err-eq-ok _ _ e₁);
          typed = map_err-eq-ok _ _ e₂;
          resolved = ok_or-eq-ok _ unresolved e₃;
          open_addresses = ((guard_addresses_iff addrs).0 (map_err-eq-ok _ _ e₄)).1;
        })

-- The bytes of the body that reqwest sends.
abbrev pub Carries : (to_vec : Json → Option Text) → Body → Text → Type 0
Carries to_vec no_body bytes = bytes ≡ []
Carries to_vec (of_json j) bytes = to_vec j ≡ some bytes
Carries to_vec (of_text t) bytes = bytes ≡ t

pub body_of-Carries :
    (to_vec : Json → Option Text) (req : RelayRequest) {body : Text}
    → body_bytes to_vec req ≡ ok body
    → Carries to_vec (body_of req) body
unfolding body_of body_bytes
body_of-Carries to_vec req h = elim (Option-cases req.json_body) [
  | inr (j, e) ↦ rw e (ok_or-eq-ok (to_vec j) json (rw e at h))
  | inl n ↦ elim (Option-cases req.data_body) [
    | inr (t, e) ↦ rw (n, e) (sym (ok_inj (rw (n, e) at h)))
    | inl n' ↦ rw (n, n') (sym (ok_inj (rw (n, n') at h)))
  ]
]

-- How the log names the agent of a proof.
abbrev pub AgentEntry : Option AccessProofPayload → Json → Type 0
AgentEntry none entry = entry ≡ Json.null
AgentEntry (some p) entry = entry ≡ Json.string p.agent_id

pub agent_json-AgentEntry : (p : Option AccessProofPayload) → AgentEntry p (agent_json p)
unfolding agent_json
agent_json-AgentEntry none = refl
agent_json-AgentEntry (some p) = refl

-- The entry of the log for a request.
abbrev pub entry : Outside → RelayRequest → CapabilityClaims → (agent : Json) → Json
entry o req claims agent = Json.object (
    Fields.field (codes "cap_id") (Json.string (o.uuid claims.cap_id)) (
      Fields.field (codes "key") (Json.string claims.key) (
        Fields.field (codes "method") (Json.string req.method)
          (Fields.field (codes "proof_agent_id") agent Fields.end))))

-- The parts of a request that is built.
pub record Matches (o : Outside) (req : RelayRequest) (c : Url × List IpAddr) (hs : Map Text)
    (out : Sent) : Type 0 where
  pub url : out.url ≡ c.0
  pub addrs : out.addrs ≡ c.1
  pub headers : out.headers ≡ hs
  pub method : o.method req.method ≡ some out.method
  pub body : out.body ≡ body_of req
  pub host : c.0.host_str ≡ some out.host

module _ (o : Outside) (now : ℕ) (req : RelayRequest) where
  pub built-Matches :
      (c : Url × List IpAddr) (headers : Map Text) {out : Sent}
      → built o now req c headers ≡ ok out
      → Matches o req c headers out
  unfolding built
  built-Matches (url, addrs) headers {out} h =
      let (m, e₁, h₁) = >>=-eq-ok (ok_or (o.method req.method) Refusal.method) _ h in
      let (host, e₂, h₂) = >>=-eq-ok (ok_or url.host_str no_host) _ h₁ in
      let (u, e₃, h₃) = >>=-eq-ok (reject_if (not o.client) client) _ h₂ in
      subst (λ (out : Sent). Matches o req (url, addrs) headers out) (ok_inj h₃)
        (record {
          url = refl;
          addrs = refl;
          headers = refl;
          method = ok_or-eq-ok _ Refusal.method e₁;
          body = refl;
          host = ok_or-eq-ok _ no_host e₂;
        })

  -- The secret stands in the header that the claims name, behind their prefix.
  pub inject_secret-holds :
      (claims : CapabilityClaims) (secret : Text) {headers : Map Text}
      → inject_secret o now req claims secret ≡ ok headers
      → (name : Text) × (value : Text) × (o.header_name claims.inject_header ≡ some name)
        × (o.header_value (claims.inject_prefix ++ secret) ≡ some value)
        × (get headers name ≡ some value)
  unfolding inject_secret insert_header
  inject_secret-holds claims secret {headers} h =
      let (hs, e, h₁) = >>=-eq-ok (insert_headers o now req [] req.headers) _ h in
      let (name, e₁, h₂) = >>=-eq-ok (ok_or (o.header_name claims.inject_header) header) _ h₁ in
      let (value, e₂, h₃) =
        >>=-eq-ok (ok_or (o.header_value (claims.inject_prefix ++ secret)) header) _ h₂ in
      (
        name,
        value,
        ok_or-eq-ok _ header e₁,
        ok_or-eq-ok _ header e₂,
        subst (λ (m : Map Text). get m name ≡ some value) (ok_inj h₃)
            (rw (get-insert hs name name value, text_eq_refl name) refl),
      )

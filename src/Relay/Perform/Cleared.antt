-- ===== src/Relay/Perform/Cleared.antt =====
-- What holds of a request that `perform_relay` of crates/lockrail-relay/src/lib.rs is about to send.
use lockrail.Prelude.{
  ℕ, ◌++◌, ◌≡◌, refl, false, inl, inr, Option, none, some, List, Result, ok, Result-cases,
  map_err-eq-ok, reject_if-eq-ok,
}
use lockrail.Prelude.Map.{Map, get}
use lockrail.Prelude.Text.{Text, codes}
use lockrail.Audit.{AuditEvent, append}
use lockrail.Protocol.Claims.{CapabilityClaims}
use lockrail.Protocol.Crypto.{capability_hash}
use lockrail.Protocol.Json.{Json}
use lockrail.Protocol.Net.Addr.{IpAddr}
use lockrail.Protocol.Proof.{AccessProofPayload}
use lockrail.Protocol.Url.{Url}
use lockrail.Relay.Admit.{Admission}
use lockrail.Relay.Checks.{checked_addrs, inject_secret, built}
use lockrail.Relay.Perform.{Meets, agent_json, request_json, use_proof, leaving, outgoing}
use lockrail.Relay.Refusal.{RelayError}
use lockrail.Relay.Request.{RelayRequest, body_bytes}
use lockrail.Relay.World.{
  Outside, World, ReplayStore, UsageStore, Sent, give, on_replay, on_usage, on_log, ◌>>=◌,
}
use lockrail.Relay.Perform.Checked.{
  Checked, checked_addrs-Checked, Carries, body_of-Carries, AgentEntry, agent_json-AgentEntry,
  entry, built-Matches, inject_secret-holds,
}

-- What `outgoing` has found and done where it returns; `left` is the state that it leaves.
pub record Cleared {R U : Type 0} (o : Outside) (replay : ReplayStore R) (usage : UsageStore U)
    (now : ℕ) (meets : Meets) (req : RelayRequest) (body : Text) (a : Admission) (held : R)
    (uses : U) (file : Option Text) (out : Sent) (left : World R U) : Type 0 where
  pub checked : Checked o req a.claims body out.url out.addrs
  pub method_sent : o.method req.method ≡ some out.method
  pub body_sent : Carries o.to_vec out.body body
  pub host_named : out.url.host_str ≡ some out.host
  pub unspent :
      (p : AccessProofPayload)
      → a.proof_payload ≡ some p
      → (replay.check_and_store held
          (capability_hash o.libs.crypto req.capability)
          p.agent_id
          p.nonce
          a.claims.exp).0
        ≡ ok tt
  pub spent :
      (p : AccessProofPayload)
      → a.proof_payload ≡ some p
      → left.replay
        ≡ (replay.check_and_store held
            (capability_hash o.libs.crypto req.capability)
            p.agent_id
            p.nonce
            a.claims.exp).1
  pub spared : a.proof_payload ≡ none → left.replay ≡ held
  pub required : a.proof_payload ≡ none → a.claims.require_proof ≡ false
  pub counted :
      (n : ℕ) × ((usage.record_use uses
          (capability_hash o.libs.crypto req.capability)
          a.claims.max_uses).0
        ≡ ok n)
  pub used :
      left.usage
      ≡ (usage.record_use uses (capability_hash o.libs.crypto req.capability) a.claims.max_uses).1
  pub injected :
      (name : Text) × (value : Text) × (o.header_name a.claims.inject_header ≡ some name)
      × (o.header_value (a.claims.inject_prefix ++ a.secret) ≡ some value)
      × (get out.headers name ≡ some value)
  pub agent : Json
  pub agent_named : AgentEntry a.proof_payload agent
  pub logged :
      (event : AuditEvent) × ((append o.audit meets.request_log now
          (codes "relay.request")
          out.url.as_str
          (entry o req a.claims agent)
          file).0
        ≡ ok event)
  pub written :
      left.file
      ≡ (append o.audit meets.request_log now
          (codes "relay.request")
          out.url.as_str
          (entry o req a.claims agent)
          file).1

module _ {R U : Type 0} (o : Outside) (replay : ReplayStore R) (usage : UsageStore U)
    (now : ℕ) where
  pub use_proof-usage :
      (claims : CapabilityClaims) (digest : Text) (p : Option AccessProofPayload) (w : World R U)
      → ((use_proof o replay usage now claims digest p w).1.usage ≡ w.usage)
        × ((use_proof o replay usage now claims digest p w).1.file ≡ w.file)
        × ((use_proof o replay usage now claims digest p w).1.sent ≡ w.sent)
  unfolding use_proof on_replay give
  use_proof-usage claims digest none w = (refl, refl, refl)
  use_proof-usage claims digest (some p) w = (refl, refl, refl)

  use_proof-fresh :
      (claims : CapabilityClaims) (digest : Text) (payload : Option AccessProofPayload)
      (w : World R U) (p : AccessProofPayload)
      → (use_proof o replay usage now claims digest payload w).0 ≡ ok tt
      → payload ≡ some p
      → (replay.check_and_store w.replay digest p.agent_id p.nonce claims.exp).0 ≡ ok tt
  unfolding use_proof on_replay
  use_proof-fresh claims digest payload w p h e = map_err-eq-ok _ _ (rw e at h)

  use_proof-spared :
      (claims : CapabilityClaims) (digest : Text) (payload : Option AccessProofPayload)
      (w : World R U)
      → payload ≡ none
      → (use_proof o replay usage now claims digest payload w).1.replay ≡ w.replay
  unfolding use_proof give
  use_proof-spared claims digest payload w e = rw e refl

  use_proof-required :
      (claims : CapabilityClaims) (digest : Text) (payload : Option AccessProofPayload)
      (w : World R U)
      → (use_proof o replay usage now claims digest payload w).0 ≡ ok tt
      → payload ≡ none
      → claims.require_proof ≡ false
  unfolding use_proof give
  use_proof-required claims digest payload w h e = reject_if-eq-ok _ _ (rw e at h)

  use_proof-spent :
      (claims : CapabilityClaims) (digest : Text) (payload : Option AccessProofPayload)
      (w : World R U) (p : AccessProofPayload)
      → payload ≡ some p
      → (use_proof o replay usage now claims digest payload w).1.replay
        ≡ (replay.check_and_store w.replay digest p.agent_id p.nonce claims.exp).1
  unfolding use_proof on_replay
  use_proof-spent claims digest payload w p e = rw e refl

  pub outgoing-Cleared :
      (meets : Meets) (req : RelayRequest) (body : Text) (a : Admission) (w : World R U)
      {out : Sent}
      → body_bytes o.to_vec req ≡ ok body
      → (outgoing o replay usage now meets req body a w).0 ≡ ok out
      → Cleared o replay usage now meets req body a w.replay w.usage w.file out
          (outgoing o replay usage now meets req body a w).1
  unfolding outgoing leaving give ◌>>=◌ on_usage on_log
  outgoing-Cleared meets req body a w {out} bytes h =
      elim (Result-cases (checked_addrs o now req a.claims body)) [
        | inr (x, e₁) ↦ absurd (cc (rw e₁ at h))
        | inl (c, e₁) ↦
            elim (Result-cases (use_proof o replay usage now a.claims digest a.proof_payload w).0) [
              | inr (x, e₂) ↦ absurd (cc (rw (e₁, e₂) at h))
              | inl (u, e₂) ↦ elim (Result-cases (on_usage usage digest a.claims.max_uses w₂).0) [
                | inr (x, e₃) ↦ absurd (cc (rw (e₁, e₂, e₃) at h))
                | inl (n, e₃) ↦ elim (Result-cases (inject_secret o now req a.claims a.secret)) [
                  | inr (x, e₄) ↦ absurd (cc (rw (e₁, e₂, e₃, e₄) at h))
                  | inl (headers, e₄) ↦ elim (Result-cases (logging c.0).0) [
                    | inr (x, e₅) ↦ absurd (cc (rw (e₁, e₂, e₃, e₄, e₅) at h))
                    | inl (event, e₅) ↦
                        rw (e₁, e₂, e₃, e₄, e₅)
                          (cleared c n headers event e₁ e₂ e₃ e₄ e₅ (rw (e₁, e₂, e₃, e₄, e₅) at h))
                  ]
                ]
              ]
            ]
      ]
    where
      digest : Text
      digest = capability_hash o.libs.crypto req.capability

      w₂ : World R U
      w₂ = (use_proof o replay usage now a.claims digest a.proof_payload w).1

      logging : Url → Result RelayError AuditEvent × World R U
      logging url =
          on_log o.audit meets.request_log now (codes "relay.request") url.as_str
            (request_json o req a) (on_usage usage digest a.claims.max_uses w₂).1

      cleared :
          (c : Url × List IpAddr) (n : ℕ) (headers : Map Text) (event : AuditEvent)
          → checked_addrs o now req a.claims body ≡ ok c
          → (use_proof o replay usage now a.claims digest a.proof_payload w).0 ≡ ok tt
          → (on_usage usage digest a.claims.max_uses w₂).0 ≡ ok n
          → inject_secret o now req a.claims a.secret ≡ ok headers
          → (logging c.0).0 ≡ ok event
          → built o now req c headers ≡ ok out
          → Cleared o replay usage now meets req body a w.replay w.usage w.file out (logging c.0).1
      cleared c n headers event e₁ e₂ e₃ e₄ e₅ b =
          let (usage_same, file_same, sent_same) =
            use_proof-usage a.claims digest a.proof_payload w in
          let built_is = built-Matches o now req c headers b in
          let (name, value, name_is, value_is, found) =
            inject_secret-holds o now req a.claims a.secret e₄ in
          record {
            checked =
                rw (built_is.url, built_is.addrs)
                  (checked_addrs-Checked o now req a.claims body e₁);
            method_sent = built_is.method;
            body_sent = rw built_is.body (body_of-Carries o.to_vec req bytes);
            host_named = rw built_is.url built_is.host;
            unspent = λ p e. use_proof-fresh a.claims digest a.proof_payload w p e₂ e;
            spent = λ p e. use_proof-spent a.claims digest a.proof_payload w p e;
            spared = λ e. use_proof-spared a.claims digest a.proof_payload w e;
            required = λ e. use_proof-required a.claims digest a.proof_payload w e₂ e;
            counted = (n, map_err-eq-ok _ _ (rw usage_same at e₃));
            used = rw usage_same refl;
            injected = (name, value, name_is, value_is, rw built_is.headers found);
            agent = agent_json a.proof_payload;
            agent_named = agent_json-AgentEntry a.proof_payload;
            logged = (event, rw built_is.url (map_err-eq-ok _ _ (rw file_same at e₅)));
            written = rw (built_is.url, file_same) refl;
          }

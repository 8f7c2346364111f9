-- ===== src/Relay/Perform/Authorised.antt =====
-- What holds where `perform_relay` of crates/lockrail-relay/src/lib.rs sends a request.
use lockrail.Prelude.{
  ℕ, ◌≡◌, refl, ap, ◌∙◌, ◌⊎◌, inl, inr, Option, List, ◌∷◌, Result, ok, Option-cases, Result-cases,
}
use lockrail.Prelude.Text.{Text, codes}
use lockrail.Audit.{append}
use lockrail.Protocol.Crypto.{body_hash, capability_hash}
use lockrail.Protocol.Json.{Json}
use lockrail.Protocol.Token.Accepts.{Accepts, ClockFits, token_verify_iff}
use lockrail.Vault.Exec.{Failure, Session}
use lockrail.Vault.Keys.{revoked_list}
use lockrail.Relay.Admit.{Admission, admit}
use lockrail.Relay.Admit.Sound.{Admitted, admit-Admitted}
use lockrail.Relay.Perform.{Meets, use_proof, leaving, outgoing, finish, perform_relay}
use lockrail.Relay.Refusal.{RelayError}
use lockrail.Relay.Request.{RelayRequest, RelayResponse, body_bytes}
use lockrail.Relay.World.{
  Outside, World, Relay, ReplayStore, UsageStore, Sent, Answer, give, on_vault, on_usage, on_log,
  on_wire, ◌>>=◌,
}
use lockrail.Relay.Perform.Cleared.{Cleared, outgoing-Cleared, use_proof-usage}
use lockrail.Relay.Perform.Quiet.{
  Quiet, Quiet-bind, Quiet-give, Logs, Logs-give, Logs-on_log, sent_of, replay_of, usage_of,
}

module _ {R U : Type 0} (o : Outside) (replay : ReplayStore R) (usage : UsageStore U)
    (now : ℕ) where
  outgoing-Quiet :
      (meets : Meets) (req : RelayRequest) (body : Text) (a : Admission)
      → Quiet sent_of (outgoing o replay usage now meets req body a)
  unfolding outgoing leaving on_usage on_log
  outgoing-Quiet meets req body a = Quiet-bind _ _ (Quiet-give _) (λ c.
      Quiet-bind _ _ use_proof-Quiet (λ u.
        Quiet-bind _ _ (record { at = λ w. refl })
          (λ n.
            Quiet-bind _ _ (Quiet-give _)
              (λ headers. Quiet-bind _ _ (record { at = λ w. refl }) (λ e. Quiet-give _)))))
    where
      use_proof-Quiet : Quiet sent_of (
          use_proof o replay usage now a.claims
            (capability_hash o.libs.crypto req.capability)
            a.proof_payload)
      use_proof-Quiet = record {
        at = λ w. (use_proof-usage o replay usage now a.claims _ a.proof_payload w).2;
      }

  -- What the answer's log entry does not change is as it was.
  finish-Quiet :
      {X : Type 0} (g : World R U → X) (meets : Meets) (a : Admission) (out : Sent)
      (answer : Answer)
      → ((w : World R U) (file : Option Text) → g (record w { file = file }) ≡ g w)
      → Quiet g (finish o replay usage now meets a out answer)
  unfolding finish on_log
  finish-Quiet g meets a out answer apart = Quiet-bind _ _ (Quiet-give _) (λ t.
      Quiet-bind _ _ (Quiet-give _) (λ s.
        Quiet-bind _ _ (Quiet-give _)
          (λ r. Quiet-bind _ _ (record { at = λ w. apart w _ }) (λ e. Quiet-give _))))

  finish-Logs :
      (meets : Meets) (a : Admission) (out : Sent) (answer : Answer)
      → Logs o.audit meets.response_log now
          (codes "relay.response")
          out.url.as_str
          (finish o replay usage now meets a out answer)
  unfolding finish
  finish-Logs meets a out answer =
      Logs-give _ _
        (λ t. Logs-give _ _ (λ s. Logs-give _ _ (λ r. Logs-on_log _ _ (λ e. Quiet-give _))))

  -- The request is sent and its answer finished.
  sending : Meets → Admission → Sent → Relay R U RelayResponse
  sending meets a out = on_wire o.send out >>= finish o replay usage now meets a out

  sending-sent :
      (meets : Meets) (a : Admission) (out : Sent) (w : World R U)
      → (sending meets a out w).1.sent ≡ out ∷ w.sent
  unfolding sending ◌>>=◌ on_wire
  sending-sent meets a out w = elim (Option-cases (o.send out)) [
    | inl n ↦ rw n refl
    | inr (answer, y) ↦ rw y ((finish-Quiet sent_of meets a out answer (λ w f. refl)).at _)
  ]

  sending-keeps :
      {X : Type 0} (g : World R U → X) (meets : Meets) (a : Admission) (out : Sent) (w : World R U)
      → ((w : World R U) (file : Option Text) → g (record w { file = file }) ≡ g w)
      → ((w : World R U) (sent : List Sent) → g (record w { sent = sent }) ≡ g w)
      → g (sending meets a out w).1 ≡ g w
  unfolding sending ◌>>=◌ on_wire
  sending-keeps g meets a out w apart still = elim (Option-cases (o.send out)) [
    | inl n ↦ rw n (still w _)
    | inr (answer, y) ↦ rw y ((finish-Quiet g meets a out answer apart).at _ ∙ still w _)
  ]

  sending-file :
      (meets : Meets) (a : Admission) (out : Sent) (w : World R U)
      → ((sending meets a out w).1.file ≡ w.file)
        ⊎ ((metadata : Json) × ((sending meets a out w).1.file
              ≡ (append o.audit meets.response_log now
                  (codes "relay.response")
                  out.url.as_str
                  metadata
                  w.file).1))
  unfolding sending ◌>>=◌ on_wire
  sending-file meets a out w = elim (Option-cases (o.send out)) [
    | inl n ↦ rw n (inl refl)
    | inr (answer, y) ↦ rw y ((finish-Logs meets a out answer).at _)
  ]

-- All that has been found and done before `out` is sent in the world `w`; `left` is the state at
-- that time, and what is left of it behind the answer.
pub record Authorised {R U : Type 0} (o : Outside) (replay : ReplayStore R) (usage : UsageStore U)
    (now : ℕ) (meets : Meets) (req : RelayRequest) (w : World R U) (out : Sent) : Type 0 where
  pub body : Text
  pub admission : Admission
  pub body_is : body_bytes o.to_vec req ≡ ok body
  pub admitted : Admitted o now req (body_hash o.libs.crypto body) w.session admission
  pub accepted :
      Accepts o.libs.crypto o.codec now req.capability admitted.issuer
        (revoked_list w.session.data')
        admitted.token
  pub left : World R U
  pub cleared : Cleared o replay usage now meets req body admission w.replay w.usage w.file out left
  pub replay_kept : (perform_relay o replay usage now meets req w).1.replay ≡ left.replay
  pub usage_kept : (perform_relay o replay usage now meets req w).1.usage ≡ left.usage
  pub file_kept :
      ((perform_relay o replay usage now meets req w).1.file ≡ left.file)
      ⊎ ((metadata : Json) × ((perform_relay o replay usage now meets req w).1.file
            ≡ (append o.audit meets.response_log now
                (codes "relay.response")
                out.url.as_str
                metadata
                left.file).1))

module _ {R U : Type 0} (o : Outside) (replay : ReplayStore R) (usage : UsageStore U) (now : ℕ)
    (meets : Meets) (req : RelayRequest) (w : World R U) (fits : ClockFits now) where
  -- At a clock that is two minutes or more from the end of its type, a call of `perform_relay`
  -- sends nothing, or it sends one request, `out`, and before it: the token was accepted, the
  -- proof of a capability that needs one verified, the request found permitted and its addresses
  -- not blocked, the replay store and the usage store agreed, and the entry for it, with its
  -- capability, key, method and agent, appended to the log. `out` has the request's method, and
  -- the body whose hash the proof has; its header that the claims name has the vault's secret.
  -- The stores are left as their calls left them, and so is the log, or with an entry for the
  -- answer.
  pub perform_relay-Authorised :
      ((perform_relay o replay usage now meets req w).1.sent ≡ w.sent)
      ⊎ ((out : Sent) × ((perform_relay o replay usage now meets req w).1.sent ≡ out ∷ w.sent)
          × Authorised o replay usage now meets req w out)
  unfolding perform_relay sending ◌>>=◌ give on_vault
  perform_relay-Authorised = elim (Result-cases (body_bytes o.to_vec req)) [
    | inr (x, e₁) ↦ inl (rw e₁ refl)
    | inl (body, e₁) ↦ elim (Result-cases (admission body).0) [
      | inr (x, e₂) ↦ inl (rw (e₁, e₂) refl)
      | inl (a, e₂) ↦ elim (Result-cases (leaving_world body a).0) [
        | inr (x, e₃) ↦
            inl (
              rw (e₁, e₂, e₃)
                ((outgoing-Quiet o replay usage now meets req body a).at (after body)))
        | inl (out, e₃) ↦ inr (
          out,
          rw (e₁, e₂, e₃)
              (sending-sent o replay usage now meets a out (leaving_world body a).1
                ∙ ap (◌∷◌ out)
                    ((outgoing-Quiet o replay usage now meets req body a).at (after body))),
          authorised body a out e₁ e₂ e₃,
        )
      ]
    ]
  ]
    where
      admission : Text → Result Failure Admission × Session
      admission body = admit o now meets.io req (body_hash o.libs.crypto body) w.session

      after : Text → World R U
      after body = record w { session = (admission body).1 }

      leaving_world : Text → Admission → Result RelayError Sent × World R U
      leaving_world body a = outgoing o replay usage now meets req body a (after body)

      authorised :
          (body : Text) (a : Admission) (out : Sent)
          → body_bytes o.to_vec req ≡ ok body
          → (admission body).0 ≡ ok a
          → (leaving_world body a).0 ≡ ok out
          → Authorised o replay usage now meets req w out
      authorised body a out e₁ e₂ e₃ =
          let h = admit-Admitted o now meets.io req (body_hash o.libs.crypto body) w.session e₂ in
          record {
            body = body;
            admission = a;
            body_is = e₁;
            admitted = h;
            accepted =
                (token_verify_iff o.libs.crypto o.codec now req.capability h.issuer
                    (revoked_list w.session.data') h.token fits).0
                  h.verified;
            left = (leaving_world body a).1;
            cleared = outgoing-Cleared o replay usage now meets req body a (after body) e₁ e₃;
            replay_kept =
                rw (e₁, e₂, e₃)
                  (sending-keeps o replay usage now replay_of meets a out (leaving_world body a).1
                    (λ w f. refl) (λ w s. refl));
            usage_kept =
                rw (e₁, e₂, e₃)
                  (sending-keeps o replay usage now usage_of meets a out (leaving_world body a).1
                    (λ w f. refl) (λ w s. refl));
            file_kept =
                rw (e₁, e₂, e₃)
                  (sending-file o replay usage now meets a out (leaving_world body a).1);
          }

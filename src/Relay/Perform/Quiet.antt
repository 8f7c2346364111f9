-- ===== src/Relay/Perform/Quiet.antt =====
-- What the steps of `perform_relay` in crates/lockrail-relay/src/lib.rs leave as it is.
use lockrail.Prelude.{ℕ, ◌≡◌, refl, ◌∙◌, ◌⊎◌, inl, inr, Option, List, Result, ok, err, Result-cases}
use lockrail.Prelude.Text.{Text}
use lockrail.Audit
use lockrail.Audit.{AuditCodec, AuditEvent, append}
use lockrail.Protocol.Json.{Json}
use lockrail.Relay.Refusal.{RelayError}
use lockrail.Relay.World.{World, Relay, Sent, give, on_log, ◌>>=◌}

-- `m` changes nothing of what `f` sees of the world.
pub record Quiet {R U A X : Type 0} (f : World R U → X) (m : Relay R U A) : Type 0 where
  pub at : (w : World R U) → f (m w).1 ≡ f w

abbrev pub sent_of : {R U : Type 0} → World R U → List Sent
sent_of w = w.sent

abbrev pub usage_of : {R U : Type 0} → World R U → U
usage_of w = w.usage

abbrev pub file_of : {R U : Type 0} → World R U → Option Text
file_of w = w.file

abbrev pub replay_of : {R U : Type 0} → World R U → R
replay_of w = w.replay

module _ {R U A B : Type 0} where
  pub Quiet-bind :
      {X : Type 0} {g : World R U → X} (m : Relay R U A) (f : A → Relay R U B)
      → Quiet g m
      → ((a : A) → Quiet g (f a))
      → Quiet g (m >>= f)
  unfolding ◌>>=◌
  Quiet-bind m f q k = record {
    at = λ w. elim (Result-cases (m w).0) [
      | inl (a, e) ↦ rw e ((k a).at (m w).1 ∙ q.at w)
      | inr (x, e) ↦ rw e (q.at w)
    ];
  }

module _ {R U A : Type 0} where
  pub Quiet-give : {X : Type 0} {g : World R U → X} (r : Result RelayError A) → Quiet g (give r)
  unfolding give
  Quiet-give r = record { at = λ w. refl }

-- The file is left as it is, or one entry of this action is appended to it.
pub record Logs {R U A : Type 0} (codec : AuditCodec) (disk : Audit.Disk) (now : ℕ)
    (action resource : Text) (m : Relay R U A) : Type 0 where
  pub at :
      (w : World R U)
      → ((m w).1.file ≡ w.file)
        ⊎ ((metadata : Json) × ((m w).1.file
              ≡ (append codec disk now action resource metadata w.file).1))

module _ {R U A B : Type 0} {codec : AuditCodec} {disk : Audit.Disk} {now : ℕ}
    {action resource : Text} where
  pub Logs-give :
      (r : Result RelayError A) (f : A → Relay R U B)
      → ((a : A) → Logs codec disk now action resource (f a))
      → Logs codec disk now action resource (give r >>= f)
  unfolding ◌>>=◌
  Logs-give (err e) f k = record { at = λ w. inl refl }
  Logs-give (ok a) f k = record { at = λ w. (k a).at w }

module _ {R U B : Type 0} {codec : AuditCodec} {disk : Audit.Disk} {now : ℕ}
    {action resource : Text} where
  pub Logs-on_log :
      (metadata : Json) (f : AuditEvent → Relay R U B)
      → ((e : AuditEvent) → Quiet file_of (f e))
      → Logs codec disk now action resource (on_log codec disk now action resource metadata >>= f)
  unfolding ◌>>=◌ on_log
  Logs-on_log metadata f k = record {
    at = λ w. elim (Result-cases (on_log codec disk now action resource metadata w).0) [
      | inl (a, e) ↦ inr (metadata, rw e ((k a).at _))
      | inr (x, e) ↦ inr (metadata, rw e refl)
    ];
  }

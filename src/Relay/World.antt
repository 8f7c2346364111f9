-- ===== src/Relay/World.antt =====
-- What `perform_relay` of crates/lockrail-relay/src/lib.rs works on, and what it calls outside the
-- repository.
use lockrail.Prelude.{ℕ, Bool, Option, List, ◌∷◌, Result, ok, err, ok_or, map_err}
use lockrail.Prelude.Map.{Map}
use lockrail.Prelude.Text.{Text}
use lockrail.Audit.{AuditCodec, AuditError, AuditEvent, append}
use lockrail.Audit
use lockrail.Protocol.Json.{Json}
use lockrail.Protocol.Net.Addr.{IpAddr}
use lockrail.Protocol.Proof.{AccessProofPayload}
use lockrail.Protocol.Receipt.{ReceiptBody}
use lockrail.Protocol.Token.{ClaimsCodec}
use lockrail.Protocol.Url.{Url, UrlCrate}
use lockrail.Relay.Refusal.{RelayError, vault, log, unsent}
use lockrail.Relay.Replay
use lockrail.Relay.Usage
use lockrail.Vault.Error.{VaultError}
use lockrail.Vault.Exec.{Failure, refused, Session, Exec}
use lockrail.Vault.Libraries.{Libraries}

-- The traits `ReplayStore` and `UsageStore`, over the state of the store.
pub record ReplayStore (R : Type 0) : Type 0 where
  pub check_and_store :
      R
      → (capability_hash agent_id nonce : Text) (expires_at : ℕ) → Result VaultError (Unit {0}) × R

pub record UsageStore (U : Type 0) : Type 0 where
  pub record_use : U → (capability_hash : Text) → Option ℕ → Result VaultError ℕ × U

-- The stores in memory, at the clock's value `now`.
abbrev pub memory_replay : (now : ℕ) → ReplayStore Replay.Store
memory_replay now = record { check_and_store = λ s k a n e. Replay.check_and_store s now k a n e }

abbrev pub memory_usage : UsageStore Usage.Store
memory_usage = record { record_use = Usage.record_use }

-- The body that reqwest is given.
pub data Body : Type 0 where
  no_body : Body
  of_json : Json → Body
  of_text : Text → Body

-- A request to the upstream, and the addresses that its connection is pinned to.
pub record Sent : Type 0 where
  pub url : Url
  pub method : Text
  pub headers : Map Text
  pub body : Body
  pub host : Text
  pub addrs : List IpAddr

-- `text` is none where the body cannot be read.
pub record Answer : Type 0 where
  pub status : ℕ
  pub headers : List (Text × Text)
  pub text : Option Text

-- `resolve` is the resolver, `send` the client of reqwest with redirects off, `client` tells that it
-- is built; `header_name`, `header_value` and `method` parse as the crate http does, `to_str` reads
-- a header's value. `uuid` and `decimal` are the texts of a UUID and of a number.
pub record Outside : Type 0 where
  pub libs : Libraries
  pub crate : UrlCrate
  pub codec : ClaimsCodec
  pub proof_value : AccessProofPayload → Option Json
  pub body_value : ReceiptBody → Option Json
  pub audit : AuditCodec
  pub to_vec : Json → Option Text
  pub resolve : (host : Text) (port : ℕ) → Option (List IpAddr)
  pub header_name : Text → Option Text
  pub header_value : Text → Option Text
  pub to_str : Text → Option Text
  pub method : Text → Option Text
  pub client : Bool
  pub send : Sent → Option Answer
  pub uuid : ℕ → Text
  pub decimal : ℕ → Text

-- The relay's state, and the requests that went out, the last one first.
pub record World (R U : Type 0) : Type 0 where
  pub session : Session
  pub replay : R
  pub usage : U
  pub file : Option Text
  pub sent : List Sent

abbrev pub Relay : Type 0 → Type 0 → Type 0 → Type 0
Relay R U A = World R U → Result RelayError A × World R U

-- The `?` on each kind of result.
abbrev pub of_vault : {A : Type 0} → Result Failure A → Result RelayError A
of_vault r = map_err vault r

abbrev pub of_store : {A : Type 0} → Result VaultError A → Result RelayError A
of_store r = map_err (λ e. vault (refused e)) r

abbrev pub of_send : Option Answer → Result RelayError Answer
of_send o = ok_or o unsent

module _ {R U A : Type 0} where
  unfoldable pub give : Result RelayError A → Relay R U A
  give r w = (r, w)

  -- A block under the lock of the vault.
  unfoldable pub on_vault : Exec A → Relay R U A
  on_vault m w = let (r, s) = m w.session in (of_vault r, record w { session = s })

module _ {R U : Type 0} where
  unfoldable pub on_replay :
      ReplayStore R
      → (capability_hash agent_id nonce : Text) (expires_at : ℕ) → Relay R U (Unit {0})
  on_replay store k a n e w =
      let (r, s) = store.check_and_store w.replay k a n e in (of_store r, record w { replay = s })

  unfoldable pub on_usage : UsageStore U → (capability_hash : Text) → Option ℕ → Relay R U ℕ
  on_usage store k m w =
      let (r, s) = store.record_use w.usage k m in (of_store r, record w { usage = s })

  unfoldable pub on_log :
      AuditCodec
      → Audit.Disk
      → (now : ℕ) (action resource : Text) (metadata : Json) → Relay R U AuditEvent
  on_log codec disk now action resource metadata w =
      let (r, file) = append codec disk now action resource metadata w.file in
      (map_err log r, record w { file = file })

  -- The request goes out, whether or not an answer comes.
  unfoldable pub on_wire : (Sent → Option Answer) → Sent → Relay R U Answer
  on_wire send s w = (of_send (send s), record w { sent = s ∷ w.sent })

module _ {R U A B : Type 0} where
  abbrev continue : Result RelayError A → (A → Relay R U B) → Relay R U B
  continue (ok a) f w = f a w
  continue (err e) f w = (err e, w)

  infixl 5 ◌>>=◌ ◌>>◌
  unfoldable pub ◌>>=◌ : Relay R U A → (A → Relay R U B) → Relay R U B
  unfolding give on_vault on_replay on_usage on_log on_wire
  ◌>>=◌ m f w = let (r, w') = m w in continue r f w'

  abbrev pub ◌>>◌ : Relay R U A → Relay R U B → Relay R U B
  m >> n = m >>= λ a. n

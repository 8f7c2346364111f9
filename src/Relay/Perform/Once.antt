-- ===== src/Relay/Perform/Once.antt =====
-- A request with a proof goes out at most once: `perform_relay` of
-- crates/lockrail-relay/src/lib.rs with the store of proofs in memory.
use lockrail.Prelude.{ℕ, List}
use lockrail.Prelude.Text.{Text}
use lockrail.Protocol.Crypto.{capability_hash, Crypto}
use lockrail.Protocol.Proof.{AccessProofPayload}
use lockrail.Protocol.Token.Accepts.{Accepts}
use lockrail.Relay.Perform.{Meets}
use lockrail.Relay.Perform.Authorised.{Authorised}
use lockrail.Relay.Replay.{Use, replay_key}
use lockrail.Relay.Replay
use lockrail.Relay.Request.{RelayRequest}
use lockrail.Relay.World.{Outside, World, UsageStore}

module _ {U : Type 0} (o : Outside) (usage usage' : UsageStore U) (now now' : ℕ)
    (meets meets' : Meets) (req : RelayRequest) (w w' : World Replay.Store U)
    (between : List Use) where
  digest : Text
  digest = capability_hash o.libs.crypto req.capability

  -- The call of the store for a proof, as a use.
  use_of : ℕ → AccessProofPayload → ℕ → Use
  use_of time p exp = record {
    now = time;
    key = replay_key digest p.agent_id p.nonce;
    expires_at = exp;
  }

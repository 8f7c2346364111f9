-- ===== src/Relay/Replay.antt =====
-- `InMemoryReplayStore` and `FileReplayStore` of crates/lockrail-relay/src/lib.rs. A call holds the
-- store's lock from its start to its end, so calls happen one after another; the release build
-- aborts on a panic, so a lock is never poisoned. `now` is the clock's value inside the call.
pub mod Once
pub mod File
mod Tests
use lockrail.Prelude.{
  ℕ, Bool, Option, none, some, List, [], ◌∷◌, ◌++◌, leb, if◌then◌else◌, Result, ok, err, Bool-cases,
  Option-cases,
}
use lockrail.Prelude.Text.{Text, codes}
use lockrail.Prelude.Map.{Map, get, insert, retain}
use lockrail.Vault.Error.{VaultError, io, json, replay_detected}

abbrev pub Store : Type 0
Store = Map ℕ

-- `format!("{capability_hash}:{agent_id}:{nonce}")`
pub replay_key : (capability_hash agent_id nonce : Text) → Text
replay_key capability_hash agent_id nonce = capability_hash ++ (b':' ∷ (agent_id ++ (b':' ∷ nonce)))

-- `contains_key`
abbrev pub is_some {ℓ} : {A : Type ℓ} → Option A → Bool
is_some none = Bool.false
is_some (some a) = Bool.true

pub record Use : Type 0 where
  pub now : ℕ
  pub key : Text
  pub expires_at : ℕ

-- The entries that a call at `now` keeps.
abbrev pub live : ℕ → ℕ → Bool
live now expiry = leb now expiry

-- The call, at the key that it has built.
pub check_key : Store → Use → Result VaultError (Unit {0}) × Store
check_key inner u =
    let kept = retain (live u.now) inner in
    if is_some (get kept u.key)
    then (err replay_detected, kept)
    else (ok tt, insert kept u.key u.expires_at)

unfoldable pub check_and_store :
    Store
    → (now : ℕ) (capability_hash agent_id nonce : Text) (expires_at : ℕ)
    → Result VaultError (Unit {0}) × Store
unfolding check_key replay_key
check_and_store inner now capability_hash agent_id nonce expires_at =
    check_key inner (record {
      now = now;
      key = replay_key capability_hash agent_id nonce;
      expires_at = expires_at;
    })

-- The store after a history of calls.
pub run : Store → List Use → Store
run s [] = s
run s (u ∷ us) = run (check_key s u).1 us

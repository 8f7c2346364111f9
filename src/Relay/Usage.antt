-- ===== src/Relay/Usage.antt =====
-- `InMemoryUsageStore` and `FileUsageStore` of crates/lockrail-relay/src/lib.rs. A call holds the
-- store's lock from its start to its end, so calls happen one after another.
pub mod Bound
pub mod File
mod Tests
use mathlib.Core.Option.{get_or}
use lockrail.Prelude.{
  ℕ, ◌+◌, ◌%◌, ◌^◌, Bool, true, false, ◌&&◌, Option, none, some, List, [], ◌∷◌, leb, if◌then◌else◌,
  Result, ok, err,
}
use lockrail.Prelude.Text.{Text, text_eq}
use lockrail.Prelude.Map.{Map, get, insert}
use lockrail.Vault.Error.{VaultError, usage_limit_exceeded}

abbrev pub Store : Type 0
Store = Map ℕ

abbrev pub current : Store → Text → ℕ
current inner capability_hash = get_or (get inner capability_hash) 0

-- `if let Some(max) = max_uses && current >= max`
abbrev pub exhausted : Option ℕ → ℕ → Bool
exhausted none n = false
exhausted (some limit) n = leb limit n

unfoldable pub record_use : Store → Text → Option ℕ → Result VaultError ℕ × Store
record_use inner capability_hash max_uses =
    let n = current inner capability_hash in
    if exhausted max_uses n
    then (err usage_limit_exceeded, inner)
    else (let next = (n + 1) % 2 ^ 64 in (ok next, insert inner capability_hash next))

pub record Call : Type 0 where
  pub capability_hash : Text
  pub max_uses : Option ℕ

-- The calls for a capability that a history grants, and those that it makes.
abbrev pub is_ok {ℓ} : {A : Type ℓ} → Result VaultError A → Bool
is_ok (ok a) = true
is_ok (err e) = false

pub granted : Text → Store → List Call → ℕ
granted k s [] = 0
granted k s (c ∷ cs) =
    let (r, s') = record_use s c.capability_hash c.max_uses in
    (if is_ok r && text_eq c.capability_hash k then 1 else 0) + granted k s' cs

pub attempts : Text → List Call → ℕ
attempts k [] = 0
attempts k (c ∷ cs) = (if text_eq c.capability_hash k then 1 else 0) + attempts k cs

pub run : Store → List Call → Store
run s [] = s
run s (c ∷ cs) = run (record_use s c.capability_hash c.max_uses).1 cs

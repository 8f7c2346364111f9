-- ===== src/Protocol/Proof/Skew.antt =====
-- When a proof's timestamp is near enough to the clock.
use lockrail.Prelude.{ℕ, ◌+◌, ◌^◌, ◌≤◌, ◌<◌, ◌≡◌, ◌↔◌, ◌⊎◌, false, arith, ltb}
use lockrail.Prelude.Int64.{of_nat}
use lockrail.Protocol.Token.{max_proof_skew_seconds}
use lockrail.Protocol.Proof.{skew}

-- The timestamp is within two minutes of the clock.
abbrev pub Near : ℕ → ℕ → Type 0
Near now timestamp =
    (now ≤ timestamp + max_proof_skew_seconds) × (timestamp ≤ now + max_proof_skew_seconds)

-- The difference is the least integer, whose absolute value is itself.
abbrev pub HalfRange : ℕ → ℕ → Type 0
HalfRange now timestamp = (now ≡ timestamp + 2 ^ 63) ⊎ (timestamp ≡ now + 2 ^ 63)

-- At a clock that is two minutes or more from either end of its type, the skew test passes
-- exactly for a timestamp within two minutes of the clock, or 2^63 seconds away from it.
pub skew_iff :
    (now timestamp : ℕ)
    → max_proof_skew_seconds ≤ now
    → now + max_proof_skew_seconds < 2 ^ 64
    → timestamp < 2 ^ 64
    → (ltb (of_nat max_proof_skew_seconds) (skew now timestamp) ≡ false)
      ↔ (Near now timestamp ⊎ HalfRange now timestamp)
unfolding skew
skew_iff now timestamp b n t = (λ h. ground arith, λ h. ground arith)

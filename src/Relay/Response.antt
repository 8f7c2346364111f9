-- ===== src/Relay/Response.antt =====
-- `scan_response_body` of crates/lockrail-relay/src/lib.rs.
use lockrail.Prelude.{
  ℕ, suc, ◌≡◌, refl, ap, sym, ◌∙◌, Bool, true, false, List, [], ◌∷◌, map, length, keep, Result, ok,
  ◌>>=◌,
}
use lockrail.Prelude.Text.{Text}
use lockrail.Protocol.Crypto.{Crypto}
use lockrail.Protocol.Seal.{SecretFinding, ScanOptions, handle}
use lockrail.Protocol.Seal.Step.{Stop}
use lockrail.Protocol.Seal.Table.{scan_text, seal_text}
use lockrail.Protocol.Seal.Table.Handles.{weave, seal_text-weave}

-- `SealOptions::default()`
abbrev pub default_options : ScanOptions
default_options = record { aggressive = false; protection_mode = true }

pub scan_response_body : Crypto → (Text → Bool) → Text → Result Stop (Text × ℕ)
scan_response_body c entropy_at_least_3_6 body = do
  sealed ← seal_text c entropy_at_least_3_6 body default_options
  ok (sealed.safe_text, length (keep (λ (f : SecretFinding). f.should_seal) sealed.findings))

length-map_same :
    (parts : List (Text × SecretFinding))
    → length (map (λ (p : Text × SecretFinding). p.1) parts) ≡ length parts
length-map_same [] = refl
length-map_same (p ∷ parts) = ap suc (length-map_same parts)

-- Where the scanners do not panic, the response's text is the body with a handle in the place of
-- the value of each finding to be sealed, and the count is their number.
pub scan_response_body-weave :
    (c : Crypto) (entropy : Text → Bool) (body : Text) (fs : List SecretFinding)
    → scan_text c entropy body default_options ≡ ok fs
    → (parts : List (Text × SecretFinding)) × (tail : Text) × (weave (λ f. f.value) parts tail
        ≡ body)
      × (scan_response_body c entropy body ≡ ok (weave handle parts tail, length parts))
unfolding scan_response_body
scan_response_body-weave c entropy body fs h =
    let (parts, tail, each, back, sealed) = seal_text-weave c entropy body default_options fs h in
    let count = ap length (sym each) ∙ length-map_same parts in
    (parts, tail, back, rw sealed (ap (λ n. ok (weave handle parts tail, n)) count))

-- ===== src/Protocol/Seal/Table/Tests.antt =====
-- Examples of the scanners and of sealing.
use lockrail.Prelude.{
  ◌≡◌, ◌≢◌, refl, Bool, true, false, List, [], ◌∷◌, map, arith, keep, All, ok, err,
}
use lockrail.Prelude.Text.{Text, codes, to_ascii_lowercase}
use lockrail.Protocol.Samples.{toy}
use lockrail.Protocol.Seal.{
  SecretFinding, ScanOptions, low, high, finding_of, handle, normalize_findings,
}
use lockrail.Protocol.Seal.Located.{InText}
use lockrail.Protocol.Seal.Normal.{Apart, normalize_findings-Apart, normalize_findings-overlap}
use lockrail.Protocol.Seal.Step.{panicked, out_of_fuel}
use lockrail.Protocol.Seal.Table.{scan_text, SealResult, seal_text}
use lockrail.Protocol.Seal.Table.Handles.{weave, seal_text-weave}
use lockrail.Protocol.Seal.Table.Sound.{scan_text-Scans}

abbrev options : ScanOptions
options = record { aggressive = false; protection_mode = true }

abbrev input : Text
input = codes "id ghp_0123456789abcdefghij"

abbrev never : Text → Bool
never s = false

abbrev finding : SecretFinding
finding = finding_of toy (codes "github-token") 3 27 (codes "ghp_0123456789abcdefghij") high options

scan_text-Scans_example :
    (scan_text toy never input options ≢ err out_of_fuel)
    × ((fs : List SecretFinding)
        → scan_text toy never input options ≡ ok fs
        → All (InText input) fs)
scan_text-Scans_example = scan_text-Scans toy never input options

found : scan_text toy never input options ≡ ok (finding ∷ [])
unfolding scan_text to_ascii_lowercase
found = refl

seal_text-weave_example :
    (parts : List (Text × SecretFinding)) × (tail : Text) × (map
        (λ (p : Text × SecretFinding). p.1)
        parts
      ≡ keep (λ (f : SecretFinding). f.should_seal) (finding ∷ []))
    × (weave (λ f. f.value) parts tail ≡ input)
    × (seal_text toy never input options
        ≡ ok (record { safe_text = weave handle parts tail; findings = finding ∷ [] }))
seal_text-weave_example = seal_text-weave toy never input options (finding ∷ []) found

-- A run of token characters around a key.
abbrev around : SecretFinding
around =
    finding_of toy (codes "high-entropy-token") 0 27 (codes "id=ghp_0123456789abcdefghij") low
      options

normalize_findings-Apart_example : Apart 0 (normalize_findings (finding ∷ around ∷ []))
normalize_findings-Apart_example = normalize_findings-Apart (finding ∷ around ∷ [])

normalize_findings-overlap_example : normalize_findings (finding ∷ around ∷ []) ≡ around ∷ []
unfolding finding_of
normalize_findings-overlap_example =
    normalize_findings-overlap around finding (omega arith) (omega arith) (omega arith)

-- A text that ends behind `bearer ` makes the scanner slice behind its end.
bearer_panics : scan_text toy never (codes "Bearer ") options ≡ err panicked
unfolding scan_text to_ascii_lowercase
bearer_panics = refl

-- A key behind a name and an equals sign is part of a longer run, which is not sealed by default.
abbrev leaking : Text
leaking = codes "key id=ghp_0123456789abcdefghij"

abbrev always : Text → Bool
always s = true

key_left :
    (r : SealResult) × (seal_text toy always leaking options ≡ ok r) × (r.safe_text ≡ leaking)
unfolding seal_text to_ascii_lowercase
key_left = (
  record {
    safe_text = leaking;
    findings =
        finding_of toy (codes "high-entropy-token") 4 31 (codes "id=ghp_0123456789abcdefghij") low
          options
        ∷ [];
  },
  refl,
  refl,
)

-- ===== src/Protocol/Seal/Assign.antt =====
-- `scan_assignment`, at one key, and `scan_generic_entropy` of seal.rs. The test
-- `shannon_entropy(s) >= 3.6`, in floating point, is a parameter.
pub mod Sound
use lockrail.Prelude.{
  ℕ, suc, ◌+◌, ◌-◌, Bool, true, false, not, ◌&&◌, ◌||◌, Option, none, some, List, [], ◌∷◌, leb, ltb,
  ◌==◌, if◌then◌else◌, length, drop, any,
}
use lockrail.Prelude.Chain.{◌>>=◌}
use lockrail.Prelude.Text.{
  Text, codes, find, starts_with, to_ascii_lowercase, is_ascii_alphabetic, is_ascii_digit,
  is_ascii_whitespace,
}
use lockrail.Prelude.Text.Trim.{starts_white}
use mathlib.Core.Option
use lockrail.Protocol.Crypto.{Crypto}
use lockrail.Protocol.Seal.{
  SecretConfidence, low, ScanOptions, SecretFinding, slice_from, slice, run, finding_of,
  is_token_char, context_suggests_secret,
}
use lockrail.Protocol.Seal.Step.{Turn, stop, turn}
use lockrail.Protocol.Seal.Scan.{push_if}

-- Where a key's separator stands.
find_separator : Text → Option ℕ
unfolding starts_white
find_separator [] = none
find_separator (b ∷ s) =
    let later = Option.map suc (find_separator s) in
    if b == b'=' || b == b':' || starts_white (b ∷ s) then some 0 else later

-- Between the separator and the value.
abbrev is_skipped : ℕ → Bool
is_skipped b = is_ascii_whitespace b || b == b'=' || b == b':' || b == 34 || b == 39

-- `trim_matches(['"', '\''])`
abbrev is_quote : ℕ → Bool
is_quote b = b == 34 || b == 39

trim_quotes_end : Text → Text
trim_quotes_end [] = []
trim_quotes_end (b ∷ s) = elim (trim_quotes_end s) [
  | [] ↦ if is_quote b then [] else b ∷ []
  | x ∷ r ↦ b ∷ x ∷ r
]

trim_quotes : Text → Text
unfolding run trim_quotes_end
trim_quotes s = trim_quotes_end (drop (run is_quote s) s)

module _ (c : Crypto) (options : ScanOptions) where
  assigned_value : (input kind : Text) → SecretConfidence → (next start : ℕ) → Option Turn
  unfolding slice_from slice run is_token_char trim_quotes finding_of
  assigned_value input kind confidence next start = do
    text ← slice_from input start
    let end = start + run is_token_char text
    elim (ltb start end && leb 8 (end - start)) [
      | false ↦ some (turn [] next)
      | true ↦ do
        value ← slice input start end
        some (turn (finding_of c kind start end (trim_quotes value) confidence options ∷ []) next)
    ]

  key_found : (input kind : Text) → SecretConfidence → (after_key : ℕ) → Option Turn
  unfolding slice_from find_separator run assigned_value
  key_found input kind confidence after_key = do
    rest ← slice_from input after_key
    elim (find_separator rest) [
      | none ↦ some (turn [] after_key)
      | some sp ↦
          assigned_value input kind confidence after_key
            (after_key + sp + run is_skipped (drop (after_key + sp) input))
    ]

  unfoldable pub assignment_turn : (input key kind : Text) → SecretConfidence → ℕ → Option Turn
  unfolding slice_from find key_found
  assignment_turn input key kind confidence offset = do
    rest ← slice_from (to_ascii_lowercase input) offset
    elim (find rest key) [
      | none ↦ some stop
      | some pos ↦ key_found input kind confidence (offset + pos + length key)
    ]

module _ (c : Crypto) (entropy_at_least_3_6 : Text → Bool) (options : ScanOptions) where
  looks_high_entropy : Text → Bool
  looks_high_entropy s = leb 24 (length s) && entropy_at_least_3_6 s

  -- The run of token characters from `start` to `end`.
  entropy_run : (input : Text) (start end : ℕ) → Option Turn
  unfolding slice looks_high_entropy push_if context_suggests_secret
  entropy_run input start end = do
    value ← slice input start end
    elim (looks_high_entropy value
        && not (starts_with value (codes "lockrail://"))
        && any is_ascii_digit value
        && any is_ascii_alphabetic value) [
          | false ↦ some (turn [] end)
          | true ↦ do
            suggests ← context_suggests_secret input start
            push_if c options suggests input (codes "high-entropy-token") start end low end
        ]

  -- One turn of the outer loop.
  unfoldable pub entropy_turn : Text → ℕ → Option Turn
  unfolding run is_token_char entropy_run
  entropy_turn input i =
      let start = i + run (λ b. not (is_token_char b)) (drop i input) in
      let end = start + run is_token_char (drop start input) in
      if not (ltb i (length input))
      then some stop
      else if ltb start end
      then entropy_run input start end
      else some (turn [] end)

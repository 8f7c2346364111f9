-- ===== src/Protocol/Seal/Scan.antt =====
-- The scanners of seal.rs for prefixes, bearer tokens, JWTs, key blocks and database URLs, each by
-- one turn of its loop.
pub mod Sound
use lockrail.Prelude.{
  ℕ, zero, suc, ◌+◌, ◌-◌, Bool, true, false, not, ◌&&◌, ◌||◌, Option, none, some, List, [], ◌∷◌,
  ◌++◌, leb, ltb, ◌==◌, if◌then◌else◌, length, take, drop, any, keep,
}
use lockrail.Prelude.Chain.{◌>>=◌}
use lockrail.Prelude.Text.{
  Text, codes, find, contains, starts_with, to_ascii_lowercase, is_ascii_alphanumeric,
  is_ascii_alphabetic, is_ascii_digit, is_ascii_whitespace,
}
use lockrail.Prelude.Text.Trim.{one_byte, two_bytes, three_bytes}
use lockrail.Protocol.Crypto.{Crypto}
use lockrail.Protocol.Seal.{
  SecretConfidence, low, medium, high, ScanOptions, SecretFinding, is_continuation, slice_from,
  slice, run, finding_of, is_token_char, context_suggests_secret,
}
use lockrail.Protocol.Seal.Step.{Turn, stop, turn, scan_loop, turns}

abbrev max : ℕ → ℕ → ℕ
max a b = if leb a b then b else a

-- The first character whatever it is, and the token characters behind it.
token_behind_first : Text → ℕ
unfolding run is_token_char
token_behind_first [] = 0
token_behind_first (c ∷ s) = let k = run is_continuation s in 1 + k + run is_token_char (drop k s)

abbrev is_jwt_char : ℕ → Bool
is_jwt_char b = is_ascii_alphanumeric b || b == b'-' || b == b'_' || b == b'.'

abbrev is_url_char : ℕ → Bool
is_url_char b =
    not (
      is_ascii_whitespace b || b == 34 || b == 39 || b == 96 || b == b')' || b == b']' || b == b'}')

module _ (c : Crypto) (options : ScanOptions) where
  -- `if found { push_finding(.., input[start..end].to_string(), ..) }`, then the next offset.
  unfoldable pub push_if :
      (found : Bool) (input kind : Text) (start end : ℕ)
      → SecretConfidence
      → (next : ℕ) → Option Turn
  unfolding slice finding_of
  push_if found input kind start end confidence next = elim found [
    | false ↦ some (turn [] next)
    | true ↦ do
      value ← slice input start end
      some (turn (finding_of c kind start end value confidence options ∷ []) next)
  ]

  -- From the place where the pattern is found.
  prefixed_found : (input prefix kind : Text) (min_len : ℕ) → SecretConfidence → ℕ → Option Turn
  unfolding slice_from token_behind_first push_if
  prefixed_found input prefix kind min_len confidence start = do
    text ← slice_from input start
    let end = start + token_behind_first text
    push_if (ltb start end && leb min_len (end - start)) input kind start end confidence
        (max end (start + length prefix))

  unfoldable pub prefixed_turn :
      (input prefix kind : Text) (min_len : ℕ) → SecretConfidence → ℕ → Option Turn
  unfolding slice_from find prefixed_found
  prefixed_turn input prefix kind min_len confidence offset = do
    rest ← slice_from input offset
    elim (find rest prefix) [
      | none ↦ some stop
      | some pos ↦ prefixed_found input prefix kind min_len confidence (offset + pos)
    ]

  -- `end - start` is taken on `end = start` or more.
  bearer_found : (input : Text) → ℕ → Option Turn
  unfolding slice_from run is_token_char push_if
  bearer_found input start = do
    text ← slice_from input start
    let end = start + run is_token_char text
    push_if (leb 16 (end - start)) input (codes "bearer-token") start end high (max end (start + 1))

  unfoldable pub bearer_turn : Text → ℕ → Option Turn
  unfolding slice_from find bearer_found
  bearer_turn input offset = do
    rest ← slice_from (to_ascii_lowercase input) offset
    elim (find rest (codes "bearer ")) [
      | none ↦ some stop
      | some pos ↦ bearer_found input (offset + pos + 7)
    ]

  jwt_found : (input : Text) → ℕ → Option Turn
  unfolding slice_from slice run push_if
  jwt_found input start = do
    text ← slice_from input start
    let end = start + run is_jwt_char text
    value ← slice input start end
    push_if (length (keep (λ b. b == b'.') value) == 2 && leb 40 (length value)) input (codes "jwt")
        start end medium (max end (start + 3))

  unfoldable pub jwt_turn : Text → ℕ → Option Turn
  unfolding slice_from find jwt_found
  jwt_turn input offset = do
    rest ← slice_from input offset
    elim (find rest (codes "eyJ")) [ none ↦ some stop | some pos ↦ jwt_found input (offset + pos) ]

  -- The block whose END marker ends at `after_marker`, if it closes.
  key_block_closed : (input : Text) (start after_marker : ℕ) → Option Turn
  unfolding slice_from slice find contains push_if
  key_block_closed input start after_marker = do
    rest ← slice_from input after_marker
    elim (find rest (codes "-----")) [
      | none ↦ some (turn [] (start + 11))
      | some close ↦ do
        let end = after_marker + close + 5
        value ← slice input start end
        push_if
            (contains value (codes "PRIVATE KEY")
              || contains value (codes "OPENSSH")
              || contains value (codes "PGP"))
            input (codes "private-key-block") start end high end
    ]

  key_block_found : (input : Text) → ℕ → Option Turn
  unfolding slice_from find key_block_closed
  key_block_found input start = do
    text ← slice_from input start
    elim (find text (codes "-----END ")) [
      | none ↦ some (turn [] (start + 11))
      | some end_pos ↦ key_block_closed input start (start + end_pos + 9)
    ]

  unfoldable pub key_block_turn : Text → ℕ → Option Turn
  unfolding slice_from find key_block_found
  key_block_turn input offset = do
    rest ← slice_from input offset
    elim (find rest (codes "-----BEGIN ")) [
      | none ↦ some stop
      | some pos ↦ key_block_found input (offset + pos)
    ]

  url_found : (input scheme : Text) → ℕ → Option Turn
  unfolding slice_from slice run push_if contains
  url_found input scheme start = do
    text ← slice_from input start
    let end = start + run is_url_char text
    value ← slice input start end
    push_if (contains value (codes "@") && leb 16 (length value)) input (codes "database-url") start
        end high (max end (start + length scheme))

  unfoldable pub url_turn : (input scheme : Text) → ℕ → Option Turn
  unfolding slice_from find url_found
  url_turn input scheme offset = do
    rest ← slice_from (to_ascii_lowercase input) offset
    elim (find rest scheme) [ none ↦ some stop | some pos ↦ url_found input scheme (offset + pos) ]

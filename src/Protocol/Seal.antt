-- ===== src/Protocol/Seal.antt =====
-- crates/lockrail-protocol/src/seal.rs: the findings in a text, and the text with handles in the
-- place of what it finds. A slice that Rust refuses (out of range, or inside a character) is `none`.
pub mod Step
pub mod Scan
pub mod Assign
pub mod Table
pub mod Normal
pub mod Located
use mathlib.Core.List.{flatten}
use lockrail.Prelude.Chain.{◌>>=◌}
use lockrail.Prelude.{
  ℕ, zero, suc, ◌+◌, ◌-◌, Bool, true, false, not, ◌&&◌, ◌||◌, Option, none, some, List, [], ◌∷◌,
  ◌++◌, map, ltb, leb, ◌==◌, if◌then◌else◌, length, take, drop, any, keep, get_last?,
}
use lockrail.Prelude.Text.{
  Text, codes, push_first, contains, to_ascii_lowercase, is_ascii_alphanumeric,
}
use lockrail.Protocol.Crypto.{Crypto}

pub data SecretConfidence : Type 0 where
  low medium high : SecretConfidence

pub record ScanOptions : Type 0 where
  pub aggressive : Bool
  pub protection_mode : Bool

pub record SecretFinding : Type 0 where
  pub kind : Text
  pub start : ℕ
  pub end : ℕ
  pub value : Text
  pub fingerprint : Text
  pub confidence : SecretConfidence
  pub should_seal : Bool
  pub preview : Text

-- `str::is_char_boundary`, and slices.
abbrev pub is_continuation : ℕ → Bool
is_continuation c = leb 0x80 c && leb c 0xbf

starts_char : Text → Bool
starts_char [] = true
starts_char (c ∷ s) = not (is_continuation c)

pub is_char_boundary : Text → ℕ → Bool
unfolding starts_char
is_char_boundary s i = i == 0 || leb i (length s) && starts_char (drop i s)

pub slice_from : Text → ℕ → Option Text
unfolding is_char_boundary
slice_from s i = if is_char_boundary s i then some (drop i s) else none

pub slice : Text → ℕ → ℕ → Option Text
unfolding is_char_boundary
slice s i j =
    if leb i j && is_char_boundary s i && is_char_boundary s j
    then some (take (j - i) (drop i s))
    else none

-- The bytes at the front that pass a test.
pub run : (ℕ → Bool) → Text → ℕ
run p [] = 0
run p (c ∷ s) = let n = run p s in if p c then suc n else 0

-- `str::chars`
chars : Text → List Text
unfolding push_first starts_char
chars [] = []
chars (c ∷ s) = let rest = chars s in if starts_char s then (c ∷ []) ∷ rest else push_first c rest

module _ (c : Crypto) where
  pub fingerprint : Text → Text
  fingerprint secret = codes "fp_" ++ take 16 (c.sha256 secret)

pub redacted_preview : Text → Text
unfolding chars
redacted_preview value =
    let cs = chars value in
    let len = length cs in
    if len == 0
    then []
    else if leb len 8
    then codes "***"
    else flatten (take 4 cs) ++ (codes "***" ++ flatten (drop (len - 4) cs))

pub is_token_char : ℕ → Bool
is_token_char c =
    is_ascii_alphanumeric c
    || c == b'_'
    || c == b'-'
    || c == b'.'
    || c == b'/'
    || c == b'+'
    || c == b'='
    || c == b':'
    || c == b'~'

pub needles : List Text
needles =
    codes "api"
    ∷ codes "token"
    ∷ codes "secret"
    ∷ codes "password"
    ∷ codes "bearer"
    ∷ codes "auth"
    ∷ codes "client"
    ∷ codes "key"
    ∷ codes "credential"
    ∷ []

pub context_suggests_secret : Text → ℕ → Option Bool
unfolding slice needles
context_suggests_secret input start = do
  window ← slice input (start - 48) start
  some (any (contains (to_ascii_lowercase window)) needles)

pub should_seal : SecretConfidence → ScanOptions → Bool
should_seal high options = true
should_seal medium options = options.protection_mode
should_seal low options = options.aggressive

-- What `push_finding` pushes.
module _ (c : Crypto) where
  pub finding_of :
      (kind : Text) (start end : ℕ) (value : Text) → SecretConfidence → ScanOptions → SecretFinding
  unfolding fingerprint redacted_preview should_seal
  finding_of kind start end value confidence options = record {
    kind = kind;
    start = start;
    end = end;
    value = value;
    fingerprint = fingerprint c value;
    confidence = confidence;
    should_seal = should_seal confidence options;
    preview = redacted_preview value;
  }

-- `sort_by_key(|d| (d.start, d.end))`, which is stable.
pub key_le : SecretFinding → SecretFinding → Bool
key_le f g = ltb f.start g.start || f.start == g.start && leb f.end g.end

pub sort_insert : SecretFinding → List SecretFinding → List SecretFinding
unfolding key_le
sort_insert f [] = f ∷ []
sort_insert f (g ∷ gs) = let rest = sort_insert f gs in if key_le f g then f ∷ g ∷ gs else g ∷ rest

pub sort_by_key : List SecretFinding → List SecretFinding
unfolding sort_insert
sort_by_key [] = []
sort_by_key (f ∷ fs) = sort_insert f (sort_by_key fs)

-- The loop of `normalize_findings`, where `clean` is held with its last element first.
pub push_clean : List SecretFinding → SecretFinding → List SecretFinding
push_clean [] finding = finding ∷ []
push_clean (prev ∷ clean) finding =
    if ltb finding.start prev.end
    then (if ltb (prev.end - prev.start) (finding.end - finding.start)
        then finding ∷ clean
        else prev ∷ clean)
    else finding ∷ prev ∷ clean

pub clean_findings : List SecretFinding → List SecretFinding → List SecretFinding
unfolding push_clean
clean_findings clean [] = clean
clean_findings clean (f ∷ fs) = clean_findings (push_clean clean f) fs

pub backwards : List SecretFinding → List SecretFinding → List SecretFinding
backwards [] acc = acc
backwards (f ∷ fs) acc = backwards fs (f ∷ acc)

pub normalize_findings : List SecretFinding → List SecretFinding
unfolding sort_by_key clean_findings backwards
normalize_findings out = backwards (clean_findings [] (sort_by_key out)) []

pub handle : SecretFinding → Text
handle f = codes "lockrail://secret/" ++ (f.kind ++ (b'/' ∷ f.fingerprint))

-- The loop of `replace_with_handles` from the position `cursor`.
pub replace_from : Text → ℕ → List SecretFinding → Option Text
unfolding slice_from slice handle
replace_from input cursor [] = slice_from input cursor
replace_from input cursor (f ∷ fs) = do
  gap ← slice input cursor f.start
  rest ← replace_from input f.end fs
  some (gap ++ (handle f ++ rest))

pub replace_with_handles : Text → List SecretFinding → Option Text
unfolding replace_from
replace_with_handles input findings = replace_from input 0 findings

-- ===== src/Protocol/Seal/Assign/Sound.antt =====
-- On the offsets and the findings of the turns in Assign.
use lockrail.Prelude.{
  drop-drop, ltb→lt, ℕ, ◌+◌, ◌-◌, ◌<◌, ◌≤◌, ◌≡◌, refl, sym, ap, ◌∙◌, Bool, true, false, not, some,
  List, [], ◌∷◌, arith, leb, ltb, length, ◌&&◌, Bool-cases, inl, inr, take, drop, any, length-drop,
  All,
}
use mathlib.Core.Path.{subst}
use lockrail.Prelude.Chain.{◌>>=◌, >>=-eq-some}
use lockrail.Prelude.Text.{
  Text, codes, find, to_ascii_lowercase, starts_with, is_ascii_digit, is_ascii_alphabetic,
}
use lockrail.Protocol.Crypto.{Crypto}
use lockrail.Protocol.Seal.{
  SecretConfidence, low, ScanOptions, SecretFinding, slice, slice_from, run, is_token_char,
  finding_of, context_suggests_secret,
}
use lockrail.Protocol.Seal.Step.{stop, turn}
use lockrail.Protocol.Seal.Located.{
  Sound, Sound-stop, Sound-none, Sound-one, Sound-bind, Sound-cases, Sound-test, Sound-push_if,
  slice_from-le, length-to_ascii_lowercase,
}
use lockrail.Protocol.Seal.Scan.{push_if}
use lockrail.Protocol.Seal.Assign.{
  find_separator, is_skipped, is_quote, trim_quotes_end, trim_quotes, assigned_value, key_found,
  assignment_turn, looks_high_entropy, entropy_run, entropy_turn,
}

-- A run of token characters has no quotes to trim.
unquoted : (b : ℕ) → is_token_char b ≡ true → is_quote b ≡ false
unfolding is_token_char
unquoted b h = ground arith

abbrev Unquoted : Text → Type 0
Unquoted = All (λ b. is_quote b ≡ false)

run-Unquoted : (s : Text) → Unquoted (take (run is_token_char s) s)
unfolding run
run-Unquoted [] = tt
run-Unquoted (b ∷ s) = elim (Bool-cases (is_token_char b)) [
  | inr e ↦ rw e tt
  | inl e ↦ rw e (unquoted b e, run-Unquoted s)
]

trim_quotes_end-Unquoted : (s : Text) → Unquoted s → trim_quotes_end s ≡ s
unfolding trim_quotes_end
trim_quotes_end-Unquoted [] a = refl
trim_quotes_end-Unquoted (b ∷ []) (q, a) = rw q refl
trim_quotes_end-Unquoted (b ∷ d ∷ s) (q, a) = rw (trim_quotes_end-Unquoted (d ∷ s) a) refl

trim_quotes-Unquoted : (s : Text) → Unquoted s → trim_quotes s ≡ s
unfolding trim_quotes run
trim_quotes-Unquoted [] a = refl
trim_quotes-Unquoted (b ∷ s) (q, a) = rw q (trim_quotes_end-Unquoted (b ∷ s) (q, a))

-- A slice is what stands behind its start.
slice-eq : (s : Text) (i j : ℕ) {v : Text} → slice s i j ≡ some v → v ≡ take (j - i) (drop i s)
unfolding slice
slice-eq s i j h = ground arith

slice_from-eq : (s : Text) (i : ℕ) {v : Text} → slice_from s i ≡ some v → v ≡ drop i s
unfolding slice_from
slice_from-eq s i h = ground arith

module _ (c : Crypto) (options : ScanOptions) (input : Text) (o : ℕ) where
  assigned_value-Sound :
      (kind : Text) (confidence : SecretConfidence) (next start : ℕ)
      → o < next
      → Sound input o (assigned_value c options input kind confidence next start)
  unfolding assigned_value finding_of
  assigned_value-Sound kind confidence next start l =
      Sound-bind input o (slice_from input start) _ (λ text e.
        let end = start + run is_token_char text in
        Sound-test input o (ltb start end && leb 8 (end - start)) (some (turn [] next)) _
          (Sound-none input o next l)
          (λ b.
            Sound-bind input o (slice input start end)
              (λ value. some (
                turn (finding_of c kind start end (trim_quotes value) confidence options ∷ [])
                  next))
              (λ value v.
                let k : end - start ≡ run is_token_char text = omega arith in
                let plain : value ≡ take (run is_token_char text) text =
                  slice-eq input start end v
                  ∙ ap (λ n. take n (drop start input)) k
                  ∙ ap (take (run is_token_char text)) (sym (slice_from-eq input start e)) in
                let same =
                  trim_quotes-Unquoted value (subst Unquoted (sym plain) (run-Unquoted text)) in
                Sound-one input o next _ l (v ∙ ap some (sym same)))))

  pub assignment_turn-Sound :
      (key kind : Text) (confidence : SecretConfidence)
      → 0 < length key
      → Sound input o (assignment_turn c options input key kind confidence o)
  unfolding assignment_turn key_found
  assignment_turn-Sound key kind confidence l =
      Sound-bind input o (slice_from (to_ascii_lowercase input) o) _ (λ rest e.
        Sound-cases input o (find rest key) _ (some stop) (Sound-stop input o) (λ pos f.
          let after_key = o + pos + length key in
          Sound-bind input o (slice_from input after_key) _ (λ text g.
            Sound-cases input o (find_separator text) _ (some (turn [] after_key))
              (Sound-none input o after_key (omega arith))
              (λ sp h.
                assigned_value-Sound kind confidence after_key
                  (after_key + sp + run is_skipped (drop (after_key + sp) input)) (omega arith)))))

  pub assignment_turn-le :
      (fs : List SecretFinding) (n : ℕ) (key kind : Text) (confidence : SecretConfidence)
      → assignment_turn c options input key kind confidence o ≡ some (turn fs n)
      → o ≤ length input
  unfolding assignment_turn
  assignment_turn-le fs n key kind confidence h =
      let (rest, e, k) = >>=-eq-some (slice_from (to_ascii_lowercase input) o) _ h in
      let l = slice_from-le (to_ascii_lowercase input) o e in
      omega (arith, length-to_ascii_lowercase input)

-- Of a text that is not empty, something is skipped or something is then read.
abbrev is_other : ℕ → Bool
is_other b = not (is_token_char b)

run_moves :
    (s : Text) → 0 < length s → 0 < run is_other s + run is_token_char (drop (run is_other s) s)
unfolding run
run_moves [] l = absurd (omega arith)
run_moves (b ∷ s) l = elim (Bool-cases (is_token_char b)) [
  | inl e ↦ rw (e, e) (omega arith)
  | inr e ↦ rw e (omega arith)
]

module _ (c : Crypto) (entropy : Text → Bool) (options : ScanOptions) (input : Text) (i : ℕ) where
  entropy_run-Sound :
      (start end : ℕ) → i < end → Sound input i (entropy_run c entropy options input start end)
  unfolding entropy_run
  entropy_run-Sound start end l = Sound-bind input i (slice input start end) _ (λ value v.
      Sound-test input i
        (looks_high_entropy c entropy options value
          && not (starts_with value (codes "lockrail://"))
          && any is_ascii_digit value
          && any is_ascii_alphabetic value)
        (some (turn [] end))
        (context_suggests_secret input start >>= λ suggests.
          push_if c options suggests input (codes "high-entropy-token") start end low end)
        (Sound-none input i end l)
        (λ b.
          Sound-bind input i (context_suggests_secret input start)
            (λ suggests.
              push_if c options suggests input (codes "high-entropy-token") start end low end)
            (λ suggests k.
              Sound-push_if input i c options suggests (codes "high-entropy-token") start end low
                end l)))

  pub entropy_turn-Sound : Sound input i (entropy_turn c entropy options input i)
  unfolding entropy_turn
  entropy_turn-Sound =
      let start = i + run (λ b. not (is_token_char b)) (drop i input) in
      let end = start + run is_token_char (drop start input) in
      elim (Bool-cases (ltb i (length input))) [
        | inr e ↦ rw e (Sound-stop input i)
        | inl e ↦ elim (Bool-cases (ltb start end)) [
          | inl l ↦ rw (e, l) (entropy_run-Sound start end (ground arith))
          | inr l ↦
              rw (e, l)
                (Sound-none input i end (
                  let m =
                    run_moves (drop i input)
                      (omega (arith, length-drop i input, ltb→lt i (length input) e)) in
                  let k : run is_token_char (drop (run is_other (drop i input)) (drop i input))
                      ≡ run is_token_char (drop start input) =
                    ap (run is_token_char) (drop-drop (run is_other (drop i input)) i input) in
                  omega arith))
        ]
      ]

  pub entropy_turn-le :
      (fs : List SecretFinding) (n : ℕ)
      → entropy_turn c entropy options input i ≡ some (turn fs n)
      → i ≤ length input
  unfolding entropy_turn
  entropy_turn-le fs n h = elim (Bool-cases (ltb i (length input))) [
    | inl e ↦ ground arith
    | inr e ↦ absurd (ground arith)
  ]

-- ===== src/Protocol/Seal/Scan/Sound.antt =====
-- On the offsets and the findings of the turns in Scan.
use lockrail.Prelude.{[], ℕ, ◌+◌, ◌<◌, ◌≤◌, ◌≡◌, some, List, arith, length}
use lockrail.Prelude.Chain.{>>=-eq-some}
use lockrail.Prelude.Text.{Text, codes, find, to_ascii_lowercase}
use lockrail.Protocol.Crypto.{Crypto}
use lockrail.Protocol.Seal.{
  SecretConfidence, medium, high, ScanOptions, SecretFinding, slice, slice_from, run, is_token_char,
}
use lockrail.Protocol.Seal.Step.{stop, turn}
use lockrail.Protocol.Seal.Located.{
  Sound, Sound-stop, Sound-none, Sound-bind, Sound-cases, Sound-push_if, slice_from-le,
  length-to_ascii_lowercase,
}
use lockrail.Protocol.Seal.Scan.{
  max, is_jwt_char, is_url_char, token_behind_first, prefixed_found, prefixed_turn, bearer_found,
  bearer_turn, jwt_found, jwt_turn, key_block_closed, key_block_found, key_block_turn, url_found,
  url_turn,
}

le-max : (a b : ℕ) → b ≤ max a b
le-max a b = ground arith

module _ (c : Crypto) (options : ScanOptions) (input : Text) (o : ℕ) where
  pub prefixed_turn-Sound :
      (prefix kind : Text) (min_len : ℕ) (confidence : SecretConfidence)
      → 0 < length prefix
      → Sound input o (prefixed_turn c options input prefix kind min_len confidence o)
  unfolding prefixed_turn prefixed_found
  prefixed_turn-Sound prefix kind min_len confidence l =
      Sound-bind input o (slice_from input o) _ (λ rest e.
        Sound-cases input o (find rest prefix) _ (some stop) (Sound-stop input o) (λ pos f.
          Sound-bind input o (slice_from input (o + pos)) _ (λ text g.
            let m = le-max (o + pos + token_behind_first text) (o + pos + length prefix) in
            Sound-push_if input o c options _ kind (o + pos) _ confidence _ (omega arith))))

  pub bearer_turn-Sound : Sound input o (bearer_turn c options input o)
  unfolding bearer_turn bearer_found
  bearer_turn-Sound = Sound-bind input o (slice_from (to_ascii_lowercase input) o) _ (λ rest e.
      Sound-cases input o (find rest (codes "bearer ")) _ (some stop) (Sound-stop input o) (λ pos f.
        Sound-bind input o (slice_from input (o + pos + 7)) _ (λ text g.
          let m = le-max (o + pos + 7 + run is_token_char text) (o + pos + 7 + 1) in
          Sound-push_if input o c options _ _ (o + pos + 7) _ high _ (omega arith))))

  pub jwt_turn-Sound : Sound input o (jwt_turn c options input o)
  unfolding jwt_turn jwt_found
  jwt_turn-Sound = Sound-bind input o (slice_from input o) _ (λ rest e.
      Sound-cases input o (find rest (codes "eyJ")) _ (some stop) (Sound-stop input o) (λ pos f.
        Sound-bind input o (slice_from input (o + pos)) _ (λ text g.
          let end = o + pos + run is_jwt_char text in
          let m = le-max end (o + pos + 3) in
          Sound-bind input o (slice input (o + pos) end) _
            (λ value v. Sound-push_if input o c options _ _ (o + pos) end medium _ (omega arith)))))

  key_block_closed-Sound :
      (start after_marker : ℕ)
      → o ≤ start
      → o < after_marker
      → Sound input o (key_block_closed c options input start after_marker)
  unfolding key_block_closed
  key_block_closed-Sound start after_marker l m =
      Sound-bind input o (slice_from input after_marker) _ (λ rest e.
        Sound-cases input o (find rest (codes "-----")) _ (some (turn [] (start + 11)))
          (Sound-none input o (start + 11) (omega arith))
          (λ close f.
            Sound-bind input o (slice input start (after_marker + close + 5)) _
              (λ value v. Sound-push_if input o c options _ _ start _ high _ (omega arith))))

  pub key_block_turn-Sound : Sound input o (key_block_turn c options input o)
  unfolding key_block_turn key_block_found
  key_block_turn-Sound = Sound-bind input o (slice_from input o) _ (λ rest e.
      Sound-cases input o (find rest (codes "-----BEGIN ")) _ (some stop) (Sound-stop input o)
        (λ pos f. Sound-bind input o (slice_from input (o + pos)) _ (λ text g.
          Sound-cases input o (find text (codes "-----END ")) _ (some (turn [] (o + pos + 11)))
            (Sound-none input o (o + pos + 11) (omega arith))
            (λ end_pos h.
              key_block_closed-Sound (o + pos) (o + pos + end_pos + 9) (omega arith)
                (omega arith)))))

  pub url_turn-Sound :
      (scheme : Text) → 0 < length scheme → Sound input o (url_turn c options input scheme o)
  unfolding url_turn url_found
  url_turn-Sound scheme l =
      Sound-bind input o (slice_from (to_ascii_lowercase input) o) _ (λ rest e.
        Sound-cases input o (find rest scheme) _ (some stop) (Sound-stop input o) (λ pos f.
          Sound-bind input o (slice_from input (o + pos)) _ (λ text g.
            let end = o + pos + run is_url_char text in
            let m = le-max end (o + pos + length scheme) in
            Sound-bind input o (slice input (o + pos) end) _
              (λ value v. Sound-push_if input o c options _ _ (o + pos) end high _ (omega arith)))))

-- No turn starts behind the text's end.
module _ (c : Crypto) (options : ScanOptions) (input : Text) (o : ℕ) (fs : List SecretFinding)
    (n : ℕ) where
  pub prefixed_turn-le :
      (prefix kind : Text) (min_len : ℕ) (confidence : SecretConfidence)
      → prefixed_turn c options input prefix kind min_len confidence o ≡ some (turn fs n)
      → o ≤ length input
  unfolding prefixed_turn
  prefixed_turn-le prefix kind min_len confidence h =
      let (rest, e, k) = >>=-eq-some (slice_from input o) _ h in slice_from-le input o e

  pub bearer_turn-le : bearer_turn c options input o ≡ some (turn fs n) → o ≤ length input
  unfolding bearer_turn
  bearer_turn-le h =
      let (rest, e, k) = >>=-eq-some (slice_from (to_ascii_lowercase input) o) _ h in
      let l = slice_from-le (to_ascii_lowercase input) o e in
      omega (arith, length-to_ascii_lowercase input)

  pub jwt_turn-le : jwt_turn c options input o ≡ some (turn fs n) → o ≤ length input
  unfolding jwt_turn
  jwt_turn-le h = let (rest, e, k) = >>=-eq-some (slice_from input o) _ h in slice_from-le input o e

  pub key_block_turn-le : key_block_turn c options input o ≡ some (turn fs n) → o ≤ length input
  unfolding key_block_turn
  key_block_turn-le h =
      let (rest, e, k) = >>=-eq-some (slice_from input o) _ h in slice_from-le input o e

  pub url_turn-le :
      (scheme : Text) → url_turn c options input scheme o ≡ some (turn fs n) → o ≤ length input
  unfolding url_turn
  url_turn-le scheme h =
      let (rest, e, k) = >>=-eq-some (slice_from (to_ascii_lowercase input) o) _ h in
      let l = slice_from-le (to_ascii_lowercase input) o e in
      omega (arith, length-to_ascii_lowercase input)

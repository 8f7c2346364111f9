-- ===== src/Protocol/Seal/Table/Sound.antt =====
-- On the loops of `scan_text` and where its findings stand.
use mathlib.Core.Path.{subst}
use lockrail.Prelude.{
  Bool, ℕ, ◌<◌, ◌≤◌, ◌≡◌, ◌≢◌, refl, Option, some, List, [], ◌∷◌, ◌++◌, arith, length, All, ok, err,
  ◌>>=◌, >>=-eq-ok,
}
use lockrail.Prelude.Text.{Text}
use lockrail.Protocol.Crypto.{Crypto}
use lockrail.Protocol.Seal.{ScanOptions, SecretFinding, normalize_findings}
use lockrail.Protocol.Seal.Step.{
  Turn, turn, panicked, out_of_fuel, turns, scan_loop-returns, scan_loop-All, All-append,
}
use lockrail.Protocol.Seal.Located.{InText, Sound}
use lockrail.Protocol.Seal.Normal.{Apart, normalize_findings-Apart, normalize_findings-All}
use lockrail.Protocol.Seal.Scan.Sound.{
  prefixed_turn-Sound, bearer_turn-Sound, jwt_turn-Sound, key_block_turn-Sound, url_turn-Sound,
  prefixed_turn-le, bearer_turn-le, jwt_turn-le, key_block_turn-le, url_turn-le,
}
use lockrail.Protocol.Seal.Assign.Sound.{
  assignment_turn-Sound, assignment_turn-le, entropy_turn-Sound, entropy_turn-le,
}
use lockrail.Protocol.Seal.Table.{
  Prefixed, Assigned, Found, prefix_table, variant_table, url_schemes, assignment_table, scan_each,
  scan_with, scan_prefixed, scan_database_url, scan_assignment, scan_all, scan_text,
}

-- The scanner's loop ends, and its findings stand in the text.
abbrev Scans : Text → Found → Type 0
Scans input r =
    (r ≢ err out_of_fuel) × ((fs : List SecretFinding) → r ≡ ok fs → All (InText input) fs)

scan_with-Scans :
    (c : Crypto) (entropy : Text → Bool) (input : Text) (step : ℕ → Option Turn)
    → ((o : ℕ) → Sound input o (step o))
    → ((o : ℕ) (fs : List SecretFinding) (n : ℕ) → step o ≡ some (turn fs n) → o ≤ length input)
    → Scans input (scan_with c entropy input step)
unfolding scan_with
scan_with-Scans c entropy input step sound le = (
  scan_loop-returns step (length input) (λ o fs n e. ((sound o fs n e).0, le o fs n e))
      (turns input) 0 (omega arith),
  λ fs e. scan_loop-All (InText input) step (λ o gs n k. (sound o gs n k).1) (turns input) 0 e,
)

-- One scanner behind another.
Scans-bind :
    (input : Text) (m : Found) (k : List SecretFinding → Found)
    → Scans input m
    → ((fs : List SecretFinding) → All (InText input) fs → Scans input (k fs))
    → Scans input (m >>= k)
Scans-bind input (ok fs) k (r, a) s = s fs (a fs refl)
Scans-bind input (err panicked) k (r, a) s = (λ h. cc, λ fs h. cc)
Scans-bind input (err out_of_fuel) k (r, a) s = absurd (r refl)

Scans-ok : (input : Text) (fs : List SecretFinding) → All (InText input) fs → Scans input (ok fs)
Scans-ok input fs a =
    (λ h. cc, λ gs h. let e : fs ≡ gs = ground arith in subst (All (InText input)) e a)

scan_each-Scans {ℓ} :
    {A : Type ℓ} (P : A → Type 0) (input : Text) (scan : A → Found)
    → ((a : A) → P a → Scans input (scan a))
    → (xs : List A) → All P xs
    → Scans input (scan_each scan xs)
unfolding scan_each
scan_each-Scans P input scan s [] h = Scans-ok input [] tt
scan_each-Scans P input scan s (a ∷ rest) (p, h) = Scans-bind input (scan a) _ (s a p) (λ fs x.
    Scans-bind input (scan_each scan rest) _ (scan_each-Scans P input scan s rest h)
      (λ gs y. Scans-ok input (fs ++ gs) (All-append (InText input) fs gs x y)))

-- No pattern of the tables is empty.
prefixes_full : All (λ (p : Prefixed). 0 < length p.prefix) prefix_table
unfolding prefix_table variant_table
prefixes_full = ground arith

schemes_full : All (λ (s : Text). 0 < length s) url_schemes
unfolding url_schemes
schemes_full = ground arith

keys_full : All (λ (k : Assigned). 0 < length k.key) assignment_table
unfolding assignment_table
keys_full = ground arith

module _ (c : Crypto) (entropy : Text → Bool) (input : Text) (options : ScanOptions) where
  scan_prefixed-Scans :
      (p : Prefixed) → 0 < length p.prefix → Scans input (scan_prefixed c entropy options input p)
  unfolding scan_prefixed
  scan_prefixed-Scans p l =
      scan_with-Scans c entropy input _
        (λ o. prefixed_turn-Sound c options input o p.prefix p.kind p.min_len p.confidence l)
        (λ o fs n e.
          prefixed_turn-le c options input o fs n p.prefix p.kind p.min_len p.confidence e)

  scan_database_url-Scans :
      (s : Text) → 0 < length s → Scans input (scan_database_url c entropy options input s)
  unfolding scan_database_url
  scan_database_url-Scans s l =
      scan_with-Scans c entropy input _ (λ o. url_turn-Sound c options input o s l)
        (λ o fs n e. url_turn-le c options input o fs n s e)

  scan_assignment-Scans :
      (k : Assigned) → 0 < length k.key → Scans input (scan_assignment c entropy options input k)
  unfolding scan_assignment
  scan_assignment-Scans k l =
      scan_with-Scans c entropy input _
        (λ o. assignment_turn-Sound c options input o k.key k.kind k.confidence l)
        (λ o fs n e. assignment_turn-le c options input o fs n k.key k.kind k.confidence e)

  scan_all-Scans : Scans input (scan_all c entropy input options)
  unfolding scan_all
  scan_all-Scans =
      let S = Scans-bind input in
      let join = All-append (InText input) in
      S _ _ (scan_each-Scans _ input _ scan_prefixed-Scans prefix_table prefixes_full) (λ f1 a1.
        S _ _
          (scan_with-Scans c entropy input _ (bearer_turn-Sound c options input)
            (bearer_turn-le c options input))
          (λ f2 a2.
            S _ _
              (scan_with-Scans c entropy input _ (jwt_turn-Sound c options input)
                (jwt_turn-le c options input))
              (λ f3 a3.
                S _ _
                  (scan_with-Scans c entropy input _ (key_block_turn-Sound c options input)
                    (key_block_turn-le c options input))
                  (λ f4 a4.
                    S _ _
                      (scan_each-Scans _ input _ scan_database_url-Scans url_schemes schemes_full)
                      (λ f5 a5.
                        S _ _
                          (scan_each-Scans _ input _ scan_assignment-Scans assignment_table
                            keys_full)
                          (λ f6 a6.
                            S _ _
                              (scan_with-Scans c entropy input _
                                (entropy_turn-Sound c entropy options input)
                                (entropy_turn-le c entropy options input))
                              (λ f7 a7. Scans-ok input _ (
                                join f1 _ a1 (
                                  join f2 _ a2 (
                                    join f3 _ a3
                                      (join f4 _ a4 (join f5 _ a5 (join f6 f7 a6 a7)))))))))))))

  -- The loops of `scan_text` end on the fuel that they are given, and each finding holds the text
  -- that stands at its place.
  pub scan_text-Scans :
      (scan_text c entropy input options ≢ err out_of_fuel)
      × ((fs : List SecretFinding)
          → scan_text c entropy input options ≡ ok fs
          → All (InText input) fs)
  unfolding scan_text
  scan_text-Scans = Scans-bind input (scan_all c entropy input options) _ scan_all-Scans (λ out a.
      Scans-ok input (normalize_findings out) (normalize_findings-All (InText input) out a))

pub scan_text-Apart :
    (c : Crypto) (entropy : Text → Bool) (input : Text) (options : ScanOptions)
    {fs : List SecretFinding}
    → scan_text c entropy input options ≡ ok fs
    → Apart 0 fs
unfolding scan_text
scan_text-Apart c entropy input options {fs} h =
    let (out, e, k) = >>=-eq-ok (scan_all c entropy input options) _ h in
    let same : normalize_findings out ≡ fs = ground arith in
    subst (Apart 0) same (normalize_findings-Apart out)

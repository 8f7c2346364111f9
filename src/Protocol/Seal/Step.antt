-- ===== src/Protocol/Seal/Step.antt =====
-- The `while let` loops of seal.rs: a turn from an offset gives findings and the next offset, or
-- ends the loop. A loop runs on fuel; a scanner is given `turns`.
use mathlib.Core.Path.{subst}
use lockrail.Prelude.{
  >>=-eq-ok, ℕ, zero, suc, ◌+◌, ◌-◌, ◌<◌, ◌≤◌, ◌≡◌, ◌≢◌, refl, arith, Option, none, some, List, [],
  ◌∷◌, ◌++◌, length, Result, ok, err, ◌>>=◌, All,
}
use lockrail.Prelude.Text.{Text}
use lockrail.Protocol.Seal.{SecretFinding}

pub data Turn : Type 0 where
  stop : Turn
  turn : List SecretFinding → ℕ → Turn

pub data Stop : Type 0 where
  panicked out_of_fuel : Stop

-- The loop from a turn on; `none` is a panic in the turn.
go_on : (ℕ → Result Stop (List SecretFinding)) → Option Turn → Result Stop (List SecretFinding)
go_on later none = err panicked
go_on later (some stop) = ok []
go_on later (some (turn fs next)) = later next >>= λ rest. ok (fs ++ rest)

unfoldable pub scan_loop : (ℕ → Option Turn) → (fuel offset : ℕ) → Result Stop (List SecretFinding)
unfolding go_on
scan_loop step zero offset = err out_of_fuel
scan_loop step (suc n) offset = go_on (λ next. scan_loop step n next) (step offset)

-- One turn for each offset in the text, one at its end, and one that ends the loop.
abbrev pub turns : Text → ℕ
turns input = length input + 2

-- Each turn goes on, and none starts behind the bound.
abbrev pub Advances : (ℕ → Option Turn) → ℕ → Type 0
Advances step bound =
    (o : ℕ) (fs : List SecretFinding) (n : ℕ) → step o ≡ some (turn fs n) → (o < n) × (o ≤ bound)

>>=-ne-err :
    (m : Result Stop (List SecretFinding)) (fs : List SecretFinding)
    → m ≢ err out_of_fuel
    → (m >>= λ rest. ok (fs ++ rest)) ≢ err out_of_fuel
>>=-ne-err (ok rest) fs n h = cc
>>=-ne-err (err e) fs n h = n h

go_on-returns :
    (later : ℕ → Result Stop (List SecretFinding)) (t : Option Turn)
    → ((fs : List SecretFinding) (next : ℕ)
        → t ≡ some (turn fs next)
        → later next ≢ err out_of_fuel)
    → go_on later t ≢ err out_of_fuel
unfolding go_on
go_on-returns later none r h = cc
go_on-returns later (some stop) r h = cc
go_on-returns later (some (turn fs next)) r h = >>=-ne-err (later next) fs (r fs next refl) h

pub scan_loop-returns :
    (step : ℕ → Option Turn) (bound : ℕ)
    → Advances step bound
    → (fuel o : ℕ) → bound + 1 - o < fuel
    → scan_loop step fuel o ≢ err out_of_fuel
unfolding scan_loop
scan_loop-returns step bound a zero o l = absurd (omega arith)
scan_loop-returns step bound a (suc n) o l =
    go_on-returns (λ next. scan_loop step n next) (step o)
      (λ fs next e.
        let (x, y) = a o fs next e in scan_loop-returns step bound a n next (omega arith))

pub All-append :
    (P : SecretFinding → Type 0) (fs gs : List SecretFinding)
    → All P fs
    → All P gs
    → All P (fs ++ gs)
All-append P [] gs a b = b
All-append P (f ∷ fs) gs (x, a) b = (x, All-append P fs gs a b)

module _ (P : SecretFinding → Type 0) where
  go_on-All :
      (later : ℕ → Result Stop (List SecretFinding)) (t : Option Turn)
      → ((fs : List SecretFinding) (next : ℕ) → t ≡ some (turn fs next) → All P fs)
      → ((next : ℕ) (fs : List SecretFinding) → later next ≡ ok fs → All P fs)
      → {fs : List SecretFinding} → go_on later t ≡ ok fs
      → All P fs
  unfolding go_on
  go_on-All later none each r h = cc
  go_on-All later (some stop) each r {fs} h = let k : [] ≡ fs = ground arith in subst (All P) k tt
  go_on-All later (some (turn gs next)) each r {fs} h =
      let (rest, e, k) = >>=-eq-ok (later next) (λ rest. ok (gs ++ rest)) h in
      let same : gs ++ rest ≡ fs = ground arith in
      subst (All P) same (All-append P gs rest (each gs next refl) (r next rest e))

  -- What holds of the findings of every turn holds of those of the loop.
  pub scan_loop-All :
      (step : ℕ → Option Turn)
      → ((o : ℕ) (fs : List SecretFinding) (next : ℕ) → step o ≡ some (turn fs next) → All P fs)
      → (fuel o : ℕ) {fs : List SecretFinding} → scan_loop step fuel o ≡ ok fs
      → All P fs
  unfolding scan_loop
  scan_loop-All step each zero o h = cc
  scan_loop-All step each (suc n) o h =
      go_on-All (λ next. scan_loop step n next) (step o) (each o)
        (λ next fs k. scan_loop-All step each n next {fs = fs} k) h

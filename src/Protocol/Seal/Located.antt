-- ===== src/Protocol/Seal/Located.antt =====
-- Turns that go on and whose findings stand in the text, and how they are put together.
use mathlib.Core.Path.{subst}
use lockrail.Prelude.{
  ℕ, suc, ◌<◌, ◌≤◌, ◌≡◌, refl, ap, Bool, true, false, Option, none, some, List, [], ◌∷◌, arith,
  length, All,
}
use lockrail.Prelude.Chain.{◌>>=◌}
use lockrail.Prelude.Text.{Text, to_ascii_lowercase}
use lockrail.Protocol.Crypto.{Crypto}
use lockrail.Protocol.Seal.{
  SecretConfidence, ScanOptions, SecretFinding, slice, slice_from, is_char_boundary, finding_of,
}
use lockrail.Protocol.Seal.Step.{Turn, stop, turn}
use lockrail.Protocol.Seal.Scan.{push_if}

-- The text has the finding's value at the finding's place, between two characters.
abbrev pub InText : Text → SecretFinding → Type 0
InText input f = slice input f.start f.end ≡ some f.value

-- A turn from `o` goes on to a greater offset, and what it finds stands in the text.
abbrev pub Sound : Text → ℕ → Option Turn → Type 0
Sound input o t =
    (fs : List SecretFinding) (n : ℕ) → t ≡ some (turn fs n) → (o < n) × All (InText input) fs

module _ (input : Text) (o : ℕ) where
  pub Sound-stop : Sound input o (some stop)
  Sound-stop fs n h = cc

  pub Sound-none : (next : ℕ) → o < next → Sound input o (some (turn [] next))
  Sound-none next l fs n h =
      let e : [] ≡ fs = ground arith in
      let k : next ≡ n = ground arith in (omega arith, subst (All (InText input)) e tt)

  pub Sound-one :
      (next : ℕ) (f : SecretFinding)
      → o < next
      → InText input f
      → Sound input o (some (turn (f ∷ []) next))
  Sound-one next f l i fs n h =
      let e : f ∷ [] ≡ fs = ground arith in
      let k : next ≡ n = ground arith in (omega arith, subst (All (InText input)) e (i, tt))

  pub Sound-bind {ℓ} :
      {A : Type ℓ} (m : Option A) (k : A → Option Turn)
      → ((a : A) → m ≡ some a → Sound input o (k a))
      → Sound input o (m >>= k)
  Sound-bind none k s fs n h = cc
  Sound-bind (some a) k s fs n h = s a refl fs n h

  pub Sound-cases :
      (m : Option ℕ) (k : ℕ → Option Turn) (t : Option Turn)
      → Sound input o t
      → ((i : ℕ) → m ≡ some i → Sound input o (k i))
      → Sound input o (elim m [ none ↦ t | some i ↦ k i ])
  Sound-cases none k t r s = r
  Sound-cases (some i) k t r s = s i refl

  pub Sound-test :
      (b : Bool) (t u : Option Turn)
      → Sound input o t
      → (b ≡ true → Sound input o u)
      → Sound input o (elim b [ false ↦ t | true ↦ u ])
  Sound-test false t u r s = r
  Sound-test true t u r s = s refl

  pub Sound-push_if :
      (c : Crypto) (options : ScanOptions) (found : Bool) (kind : Text) (start end : ℕ)
      (confidence : SecretConfidence) (next : ℕ)
      → o < next
      → Sound input o (push_if c options found input kind start end confidence next)
  unfolding push_if finding_of
  Sound-push_if c options found kind start end confidence next l =
      Sound-test found (some (turn [] next)) _ (Sound-none next l)
        (λ b. Sound-bind (slice input start end) _ (λ value e. Sound-one next _ l e))

-- A slice starts and ends in the text, between two characters.
pub slice_from-le : (s : Text) (i : ℕ) {r : Text} → slice_from s i ≡ some r → i ≤ length s
unfolding slice_from is_char_boundary
slice_from-le s i h = ground arith

pub length-to_ascii_lowercase : (s : Text) → length (to_ascii_lowercase s) ≡ length s
unfolding to_ascii_lowercase
length-to_ascii_lowercase [] = refl
length-to_ascii_lowercase (b ∷ s) = ap suc (length-to_ascii_lowercase s)

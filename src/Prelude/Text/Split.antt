-- ===== src/Prelude/Text/Split.antt =====
-- Laws of splitting a text at a delimiter.
use mathlib.Core.Path.{◌≡◌, refl, sym, ap, ◌∙◌}
use mathlib.Core.Logic.{◌≢◌, inl, inr}
use Prim.Native.Nat.{ℕ}
use mathlib.Core.Bool.{Bool, true, false}
use mathlib.Core.List.{List, [], ◌∷◌, ◌++◌}
use native.Mathlib.Omega.{arith}
use lockrail.Prelude.Tests.{◌==◌, ==→eq, ==→ne, Bool-cases, if◌then◌else◌}
use lockrail.Prelude.Lists.{All}
use lockrail.Prelude.Text.{Text, push_first, split}

pub split_same : (d : ℕ) (s : Text) → split (d ∷ s) d ≡ [] ∷ split s d
unfolding split
split_same d s = ground arith

pub split_other : (c d : ℕ) (s : Text) → c ≢ d → split (c ∷ s) d ≡ push_first c (split s d)
unfolding split
split_other c d s ne = ground arith

-- A split has a first part.
push-ne-nil : (c : ℕ) (ps : List Text) → (q : Text) × (qs : List Text) × (push_first c ps ≡ q ∷ qs)
unfolding push_first
push-ne-nil c [] = (c ∷ [], [], refl)
push-ne-nil c (p ∷ ps) = (c ∷ p, ps, refl)

split_cons-ne-nil :
    (b : Bool) (c : ℕ) (ps : List Text)
    → (q : Text) × (qs : List Text) × ((if b then [] ∷ ps else push_first c ps) ≡ q ∷ qs)
split_cons-ne-nil true c ps = ([], ps, refl)
split_cons-ne-nil false c ps = push-ne-nil c ps

pub split-ne-nil : (s : Text) (d : ℕ) → (q : Text) × (qs : List Text) × (split s d ≡ q ∷ qs)
unfolding split
split-ne-nil [] d = ([], [], refl)
split-ne-nil (c ∷ s) d = split_cons-ne-nil (c == d) c (split s d)

-- A text with no delimiter in it is one part, and ends the first part of what follows it.
abbrev pub Lacks : ℕ → Text → Type 0
Lacks d s = All (λ c. c ≢ d) s

pub split-append : (p s : Text) (d : ℕ) → Lacks d p → split (p ++ (d ∷ s)) d ≡ p ∷ split s d
unfolding push_first
split-append [] s d h = split_same d s
split-append (c ∷ p) s d (ne, h) = split_other c d (p ++ (d ∷ s)) ne ∙ rw (split-append p s d h)

pub split-Lacks : (p : Text) (d : ℕ) → Lacks d p → split p d ≡ p ∷ []
unfolding split push_first
split-Lacks [] d h = refl
split-Lacks (c ∷ p) d (ne, h) = split_other c d p ne ∙ rw (split-Lacks p d h)

-- A split into one part gives the text back.
split_alone-push :
    (c : ℕ) (ps : List Text) {q : Text} (s : Text)
    → ((r : Text) → ps ≡ r ∷ [] → r ≡ s)
    → ps ≢ []
    → push_first c ps ≡ q ∷ []
    → q ≡ c ∷ s
unfolding push_first
split_alone-push c [] s ih ne h = absurd (ne refl)
split_alone-push c (p ∷ []) s ih ne h = ground (arith, ih p refl)
split_alone-push c (p ∷ p' ∷ ps) s ih ne h = ground arith

pub split_ne_nil : (s : Text) (d : ℕ) → split s d ≢ []
split_ne_nil s d h = let (q, qs, e) = split-ne-nil s d in cc

pub split_alone : (s : Text) (d : ℕ) (q : Text) → split s d ≡ q ∷ [] → q ≡ s
unfolding split
split_alone [] d q h = ground arith
split_alone (c ∷ s) d q h = elim (Bool-cases (c == d)) [
  | inl b ↦ let (r, rs, e) = split-ne-nil s d in cc (rw (b, e) at h)
  | inr b ↦ split_alone-push c (split s d) s (λ r. split_alone s d r) (split_ne_nil s d) (rw b at h)
]

-- A text that ends with the delimiter has an empty last part, behind another.
pub split-append_end :
    (s : Text) (d : ℕ)
    → (p : Text) × (ps : List Text) × (split (s ++ (d ∷ [])) d ≡ p ∷ (ps ++ ([] ∷ [])))
unfolding push_first
split-append_end [] d = ([], [], split_same d [] ∙ rw (split-Lacks [] d tt))
split-append_end (c ∷ s) d =
    let (p, ps, e) = split-append_end s d in
    elim (Bool-cases (c == d)) [
      | inl b ↦ ([], p ∷ ps, rw (==→eq c d b) (split_same d (s ++ (d ∷ [])) ∙ rw e))
      | inr b ↦ (c ∷ p, ps, split_other c d (s ++ (d ∷ [])) (==→ne c d b) ∙ rw e)
    ]

push-append :
    (c : ℕ) (ps qs : List Text) → ps ≢ [] → push_first c ps ++ qs ≡ push_first c (ps ++ qs)
unfolding push_first
push-append c [] qs ne = absurd (ne refl)
push-append c (p ∷ ps) qs ne = refl

-- A delimiter splits a text into the parts before it and those behind it.
pub split-append_both : (s t : Text) (d : ℕ) → split (s ++ (d ∷ t)) d ≡ split s d ++ split t d
unfolding split
split-append_both [] t d = split_same d t
split-append_both (c ∷ s) t d = elim (Bool-cases (c == d)) [
  | inl b ↦ rw (b) (ap (◌∷◌ []) (split-append_both s t d))
  | inr b ↦ rw (b) (
      ap (push_first c) (split-append_both s t d)
      ∙ sym (push-append c (split s d) (split t d) (split_ne_nil s d)))
]

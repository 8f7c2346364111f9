-- ===== src/Protocol/Seal/Table/Handles.antt =====
-- On the text of `replace_with_handles` and `seal_text`, against the input and its findings.
use lockrail.Prelude.{
  ℕ, ◌-◌, ◌≤◌, ◌≡◌, refl, sym, ap, ◌∙◌, Bool, true, some, List, [], ◌∷◌, ◌++◌, map, arith, take,
  drop, keep, All, Bool-cases, inl, inr, ok, take-append-drop, drop-drop,
}
use lockrail.Prelude.Text.{Text}
use lockrail.Protocol.Crypto.{Crypto}
use lockrail.Protocol.Seal.{
  ScanOptions, SecretFinding, is_char_boundary, slice, slice_from, handle, replace_from,
  replace_with_handles,
}
use lockrail.Protocol.Seal.Located.{InText}
use lockrail.Protocol.Seal.Normal.{Apart, Apart-le}
use lockrail.Protocol.Seal.Table.{scan_text, seal_text}
use lockrail.Protocol.Seal.Table.Sound.{scan_text-Scans, scan_text-Apart}

-- Text and findings in turns, each finding behind its text, and the text behind the last one.
abbrev pub weave : (SecretFinding → Text) → List (Text × SecretFinding) → Text → Text
weave show [] tail = tail
weave show ((gap, f) ∷ parts) tail = gap ++ (show f ++ weave show parts tail)

slice-inside :
    (s : Text) (i j : ℕ) {v : Text}
    → slice s i j ≡ some v
    → (i ≤ j)
      × (is_char_boundary s i ≡ true)
      × (is_char_boundary s j ≡ true)
      × (v ≡ take (j - i) (drop i s))
unfolding slice
slice-inside s i j h = ground arith

slice-some :
    (s : Text) (i j : ℕ)
    → i ≤ j
    → is_char_boundary s i ≡ true
    → is_char_boundary s j ≡ true
    → slice s i j ≡ some (take (j - i) (drop i s))
unfolding slice
slice-some s i j l a b = ground arith

-- What stands from `i` on, at `j`.
cut : (s : Text) (i j : ℕ) → i ≤ j → take (j - i) (drop i s) ++ drop j s ≡ drop i s
cut s i j l =
    ap (λ r. take (j - i) (drop i s) ++ r)
      (ap (λ k. drop k s) (omega arith) ∙ sym (drop-drop (j - i) i s))
    ∙ take-append-drop (j - i) (drop i s)

-- The text from `cursor` on, with handles for the findings.
abbrev Woven : Text → ℕ → List SecretFinding → Type 0
Woven input cursor fs =
    (parts : List (Text × SecretFinding)) × (tail : Text) × (map (λ (p : Text × SecretFinding). p.1)
        parts
      ≡ fs)
    × (weave (λ f. f.value) parts tail ≡ drop cursor input)
    × (replace_from input cursor fs ≡ some (weave handle parts tail))

replace_from-Woven :
    (input : Text) (cursor : ℕ) (fs : List SecretFinding)
    → is_char_boundary input cursor ≡ true
    → Apart cursor fs
    → All (InText input) fs
    → Woven input cursor fs
unfolding replace_from slice_from
replace_from-Woven input cursor [] b a i = ([], drop cursor input, refl, refl, rw b refl)
replace_from-Woven input cursor (f ∷ fs) b (l, a) (v, i) =
    let (le, x, y, same) = slice-inside input f.start f.end v in
    let (parts, tail, each, back, safe) = replace_from-Woven input f.end fs y a i in
    let gap = take (f.start - cursor) (drop cursor input) in
    let between = slice-some input cursor f.start l b x in
    (
      (gap, f) ∷ parts,
      tail,
      ap (◌∷◌ f) each,
      ap (λ r. gap ++ (f.value ++ r)) back
          ∙ ap (λ r. gap ++ (r ++ drop f.end input)) same
          ∙ ap (λ r. gap ++ r) (cut input f.start f.end le)
          ∙ cut input cursor f.start l,
      rw (between, safe) refl,
    )

keep-Apart :
    (input : Text) (p : SecretFinding → Bool) (cursor : ℕ) (fs : List SecretFinding)
    → Apart cursor fs
    → All (InText input) fs
    → Apart cursor (keep p fs) × All (InText input) (keep p fs)
keep-Apart input p cursor [] a i = (tt, tt)
keep-Apart input p cursor (f ∷ fs) (l, a) (v, i) =
    let (b, j) = keep-Apart input p f.end fs a i in
    elim (Bool-cases (p f)) [
      | inl e ↦ rw e ((l, b), (v, j))
      | inr e ↦
          let (le, x, y, same) = slice-inside input f.start f.end v in
          rw e (Apart-le f.end cursor (keep p fs) (omega arith) b, j)
    ]

boundary_zero : (s : Text) → is_char_boundary s 0 ≡ true
unfolding is_char_boundary
boundary_zero s = refl

-- Where the scanners do not panic, `seal_text` does not either: its findings are theirs, and its
-- text is the input with a handle in the place of the value of each finding to be sealed.
pub seal_text-weave :
    (c : Crypto) (entropy : Text → Bool) (input : Text) (options : ScanOptions)
    (fs : List SecretFinding)
    → scan_text c entropy input options ≡ ok fs
    → (parts : List (Text × SecretFinding)) × (tail : Text) × (map
          (λ (p : Text × SecretFinding). p.1)
          parts
        ≡ keep (λ (f : SecretFinding). f.should_seal) fs)
      × (weave (λ f. f.value) parts tail ≡ input)
      × (seal_text c entropy input options
          ≡ ok (record { safe_text = weave handle parts tail; findings = fs }))
unfolding seal_text replace_with_handles
seal_text-weave c entropy input options fs h =
    let (a, i) =
      keep-Apart input (λ f. f.should_seal) 0 fs (scan_text-Apart c entropy input options h)
        ((scan_text-Scans c entropy input options).1 fs h) in
    let (parts, tail, each, back, safe) =
      replace_from-Woven input 0 (keep (λ f. f.should_seal) fs) (boundary_zero input) a i in
    (parts, tail, each, back, rw (h, safe) refl)

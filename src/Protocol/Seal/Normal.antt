-- ===== src/Protocol/Seal/Normal.antt =====
-- On the order and overlap of what `normalize_findings` returns.
use lockrail.Prelude.{
  lt→ltb, ℕ, ◌-◌, ◌≤◌, ◌<◌, ◌≡◌, refl, true, false, List, [], ◌∷◌, arith, All, Bool-cases, inl, inr,
  ltb,
}
use lockrail.Protocol.Seal.{
  SecretFinding, key_le, sort_insert, sort_by_key, push_clean, clean_findings, backwards,
  normalize_findings,
}

-- Each finding starts where the one before has ended, or later, and `cursor` at the first.
abbrev pub Apart : ℕ → List SecretFinding → Type 0
Apart cursor [] = Unit
Apart cursor (f ∷ fs) = (cursor ≤ f.start) × Apart f.end fs

-- What sorting and normalizing keep of every finding.
module _ (P : SecretFinding → Type 0) where
  sort_insert-All :
      (f : SecretFinding) (fs : List SecretFinding) → P f → All P fs → All P (sort_insert f fs)
  unfolding sort_insert
  sort_insert-All f [] p a = (p, tt)
  sort_insert-All f (g ∷ gs) p (q, a) = elim (Bool-cases (key_le f g)) [
    | inl e ↦ rw e (p, (q, a))
    | inr e ↦ rw e (q, sort_insert-All f gs p a)
  ]

  sort_by_key-All : (fs : List SecretFinding) → All P fs → All P (sort_by_key fs)
  unfolding sort_by_key
  sort_by_key-All [] a = tt
  sort_by_key-All (f ∷ fs) (p, a) = sort_insert-All f (sort_by_key fs) p (sort_by_key-All fs a)

  push_clean-All :
      (clean : List SecretFinding) (f : SecretFinding)
      → All P clean
      → P f
      → All P (push_clean clean f)
  unfolding push_clean
  push_clean-All [] f a p = (p, tt)
  push_clean-All (g ∷ clean) f (q, a) p = elim (Bool-cases (ltb f.start g.end)) [
    | inr e ↦ rw e (p, (q, a))
    | inl e ↦ elim (Bool-cases (ltb (g.end - g.start) (f.end - f.start))) [
      | inl l ↦ rw (e, l) (p, a)
      | inr l ↦ rw (e, l) (q, a)
    ]
  ]

  clean_findings-All :
      (clean fs : List SecretFinding) → All P clean → All P fs → All P (clean_findings clean fs)
  unfolding clean_findings
  clean_findings-All clean [] a b = a
  clean_findings-All clean (f ∷ fs) a (p, b) =
      clean_findings-All (push_clean clean f) fs (push_clean-All clean f a p) b

  backwards-All : (fs acc : List SecretFinding) → All P fs → All P acc → All P (backwards fs acc)
  unfolding backwards
  backwards-All [] acc a b = b
  backwards-All (f ∷ fs) acc (p, a) b = backwards-All fs (f ∷ acc) a (p, b)

  pub normalize_findings-All : (fs : List SecretFinding) → All P fs → All P (normalize_findings fs)
  unfolding normalize_findings
  normalize_findings-All fs a =
      backwards-All (clean_findings [] (sort_by_key fs)) []
        (clean_findings-All [] (sort_by_key fs) tt (sort_by_key-All fs a)) tt

-- Sorted by the start, all from `low` on.
abbrev Ascending : ℕ → List SecretFinding → Type 0
Ascending low [] = Unit
Ascending low (f ∷ fs) = (low ≤ f.start) × Ascending f.start fs

sort_insert-Ascending :
    (low : ℕ) (f : SecretFinding) (fs : List SecretFinding)
    → low ≤ f.start
    → Ascending low fs
    → Ascending low (sort_insert f fs)
unfolding sort_insert key_le
sort_insert-Ascending low f [] l a = (l, tt)
sort_insert-Ascending low f (g ∷ gs) l (m, a) = elim (Bool-cases (key_le f g)) [
  | inl e ↦ rw e (l, (ground arith, a))
  | inr e ↦ rw e (m, sort_insert-Ascending g.start f gs (ground arith) a)
]

sort_by_key-Ascending : (fs : List SecretFinding) → Ascending 0 (sort_by_key fs)
unfolding sort_by_key
sort_by_key-Ascending [] = tt
sort_by_key-Ascending (f ∷ fs) =
    sort_insert-Ascending 0 f (sort_by_key fs) (omega arith) (sort_by_key-Ascending fs)

-- Findings with the last one first: each ends before the next one starts, and the last by `b`.
abbrev Below : ℕ → List SecretFinding → Type 0
Below b [] = Unit
Below b (f ∷ fs) = (f.end ≤ b) × Below f.start fs

Below-le : (b d : ℕ) (fs : List SecretFinding) → b ≤ d → Below b fs → Below d fs
Below-le b d [] l h = tt
Below-le b d (f ∷ fs) l (e, h) = (omega arith, h)

-- What the loop keeps, before a finding that starts at `top` or later.
abbrev Clean : ℕ → List SecretFinding → Type 0
Clean top [] = Unit
Clean top (f ∷ fs) = (f.start ≤ top) × Below f.start fs

push_clean-Clean :
    (clean : List SecretFinding) (f : SecretFinding)
    → Clean f.start clean
    → Clean f.start (push_clean clean f)
unfolding push_clean
push_clean-Clean [] f a = (omega arith, tt)
push_clean-Clean (g ∷ clean) f (l, a) = elim (Bool-cases (ltb f.start g.end)) [
  | inr e ↦ rw e (omega arith, (ground arith, a))
  | inl e ↦ elim (Bool-cases (ltb (g.end - g.start) (f.end - f.start))) [
    | inl k ↦ rw (e, k) (omega arith, Below-le g.start f.start clean l a)
    | inr k ↦ rw (e, k) (l, a)
  ]
]

Clean-le : (b d : ℕ) (fs : List SecretFinding) → b ≤ d → Clean b fs → Clean d fs
Clean-le b d [] l h = tt
Clean-le b d (f ∷ fs) l (e, h) = (omega arith, h)

clean_findings-Clean :
    (clean fs : List SecretFinding) (top : ℕ)
    → Clean top clean
    → Ascending top fs
    → (last : ℕ) × Clean last (clean_findings clean fs)
unfolding clean_findings
clean_findings-Clean clean [] top c a = (top, c)
clean_findings-Clean clean (f ∷ fs) top c (l, a) =
    clean_findings-Clean (push_clean clean f) fs f.start
      (push_clean-Clean clean f (Clean-le top f.start clean l c)) a

pub Apart-le : (b d : ℕ) (fs : List SecretFinding) → d ≤ b → Apart b fs → Apart d fs
Apart-le b d [] l h = tt
Apart-le b d (f ∷ fs) l (e, h) = (omega arith, h)

backwards-Apart :
    (b : ℕ) (fs acc : List SecretFinding) → Below b fs → Apart b acc → Apart 0 (backwards fs acc)
unfolding backwards
backwards-Apart b [] acc h a = Apart-le b 0 acc (omega arith) a
backwards-Apart b (f ∷ fs) acc (e, h) a =
    backwards-Apart f.start fs (f ∷ acc) h (omega arith, Apart-le b f.end acc e a)

Clean→Apart : (top : ℕ) (fs : List SecretFinding) → Clean top fs → Apart 0 (backwards fs [])
Clean→Apart top [] c = backwards-Apart 0 [] [] tt tt
Clean→Apart top (f ∷ fs) (l, h) = backwards-Apart f.end (f ∷ fs) [] (omega arith, h) tt

-- Whatever the scanners have found, in any order and with overlaps, what is left stands in order
-- and does not overlap.
pub normalize_findings-Apart : (out : List SecretFinding) → Apart 0 (normalize_findings out)
unfolding normalize_findings
normalize_findings-Apart out =
    let (last, c) = clean_findings-Clean [] (sort_by_key out) 0 tt (sort_by_key-Ascending out) in
    Clean→Apart last (clean_findings [] (sort_by_key out)) c

-- Of two findings where one starts inside the other, later than it, and is no longer, only the
-- other is left, however sure each is.
pub normalize_findings-overlap :
    (f g : SecretFinding)
    → f.start < g.start
    → g.start < f.end
    → g.end - g.start ≤ f.end - f.start
    → normalize_findings (g ∷ f ∷ []) ≡ f ∷ []
unfolding normalize_findings sort_by_key sort_insert key_le clean_findings push_clean backwards
normalize_findings-overlap f g a b l =
    let k : key_le g f ≡ false = ground arith in
    let x : ltb g.start f.end ≡ true = lt→ltb g.start f.end b in
    let y : ltb (f.end - f.start) (g.end - g.start) ≡ false = ground arith in rw (k, x, y) refl

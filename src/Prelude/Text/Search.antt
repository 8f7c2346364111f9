-- ===== src/Prelude/Text/Search.antt =====
-- Laws of the searches in a text: prefixes, suffixes and the first occurrence of a part.
use Prim.Native.Nat.{ℕ, suc, ◌+◌, ◌-◌, ◌≤◌}
use mathlib.Core.Path.{◌≡◌, refl, sym, ap, ◌∙◌}
use mathlib.Core.Logic.{◌↔◌, inl, inr}
use mathlib.Core.Bool.{true}
use mathlib.Core.Option.{some}
use mathlib.Core.List.{[], ◌∷◌, ◌++◌, append_assoc}
use native.Mathlib.Omega.{arith}
use lockrail.Prelude.Tests.{Bool-cases, Option-cases}
use lockrail.Prelude.Lists.{
  length, drop, take, length-append, take-append-drop, drop-length-append, drop-append_le,
  drop-drop,
}
use lockrail.Prelude.Text.{
  Text, text_eq, text_eq_iff, strip_prefix, starts_with, ends_with, find, contains,
}

starts_with-append : (p r : Text) → starts_with (p ++ r) p ≡ true
unfolding starts_with
starts_with-append [] [] = refl
starts_with-append [] (c ∷ r) = refl
starts_with-append (d ∷ p) r = ground (arith, starts_with-append p r)

-- A text starts with `p` exactly when something follows `p` in it.
starts_with→append : (s p : Text) → starts_with s p ≡ true → (r : Text) × (s ≡ p ++ r)
unfolding starts_with
starts_with→append s [] h = (s, refl)
starts_with→append [] (d ∷ p) h = cc
starts_with→append (c ∷ s) (d ∷ p) h =
    let (r, e) = starts_with→append s p (ground arith) in (r, ground arith)

pub starts_with_iff : (s p : Text) → (starts_with s p ≡ true) ↔ ((r : Text) × (s ≡ p ++ r))
starts_with_iff s p = (starts_with→append s p, λ (r, e). rw e (starts_with-append p r))

ends_with-append : (r p : Text) → ends_with (r ++ p) p ≡ true
unfolding ends_with
ends_with-append r p =
    let n : length (r ++ p) - length p ≡ length r = omega (arith, length-append r p) in
    let e : drop (length (r ++ p) - length p) (r ++ p) ≡ p = rw n (drop-length-append r p) in
    ground
      (arith, length-append r p, (text_eq_iff (drop (length (r ++ p) - length p) (r ++ p)) p).1 e)

ends_with→append : (s p : Text) → ends_with s p ≡ true → s ≡ take (length s - length p) s ++ p
unfolding ends_with
ends_with→append s p h =
    let t : text_eq (drop (length s - length p) s) p ≡ true = ground arith in
    sym (take-append-drop (length s - length p) s)
    ∙ ap (λ q. take (length s - length p) s ++ q) ((text_eq_iff _ p).0 t)

-- A text ends with `p` exactly when `p` is its last part.
pub ends_with_iff : (s p : Text) → (ends_with s p ≡ true) ↔ ((r : Text) × (s ≡ r ++ p))
ends_with_iff s p = (
  λ h. (take (length s - length p) s, ends_with→append s p h),
  λ (r, e). rw e (ends_with-append r p),
)

find_at_start : (s p : Text) → starts_with s p ≡ true → find s p ≡ some 0
unfolding find
find_at_start [] p h = ground arith
find_at_start (c ∷ s) p h = ground arith

-- An occurrence that is found splits the text.
pub find-eq-some :
    (s p : Text) {i : ℕ}
    → find s p ≡ some i
    → (pre rest : Text) × (s ≡ pre ++ (p ++ rest)) × (length pre ≡ i)
unfolding find
find-eq-some [] p h = elim (Bool-cases (starts_with [] p)) [
  | inl b ↦ let (r, e) = starts_with→append [] p b in ([], r, e, ground arith)
  | inr b ↦ cc (rw b at h)
]
find-eq-some (c ∷ s) p h = elim (Bool-cases (starts_with (c ∷ s) p)) [
  | inl b ↦ let (r, e) = starts_with→append (c ∷ s) p b in ([], r, e, ground arith)
  | inr b ↦ elim (Option-cases (find s p)) [
    | inl n ↦ cc (rw (b, n) at h)
    | inr (j, f) ↦
        let (pre, rest, e, l) = find-eq-some s p f in (c ∷ pre, rest, ap (◌∷◌ c) e, ground arith)
  ]
]

pub drop-append_part :
    (pre p rest : Text) → drop (length pre + length p) (pre ++ (p ++ rest)) ≡ rest
drop-append_part pre p rest =
    sym (drop-drop (length p) (length pre) (pre ++ (p ++ rest)))
    ∙ ap (drop (length p)) (drop-length-append pre (p ++ rest))
    ∙ drop-length-append p rest

-- The first occurrence is no later than any other.
pub find-append : (g p w : Text) → (i : ℕ) × (find (g ++ (p ++ w)) p ≡ some i) × (i ≤ length g)
unfolding find
find-append [] p w = (0, find_at_start (p ++ w) p (starts_with-append p w), omega arith)
find-append (c ∷ g) p w = elim (Bool-cases (starts_with (c ∷ (g ++ (p ++ w))) p)) [
  | inl b ↦ (0, ground arith, omega arith)
  | inr b ↦ let (i, e, l) = find-append g p w in (suc i, ground arith, omega arith)
]

-- What follows the first occurrence ends with what follows any other.
pub drop-find :
    (g p w : Text) {i : ℕ}
    → i ≤ length g
    → (x : Text) × (drop (i + length p) (g ++ (p ++ w)) ≡ x ++ w)
drop-find g p w {i} h = (
  drop (i + length p) (g ++ p),
  rw (← append_assoc g p w)
      (drop-append_le (i + length p) (g ++ p) w (omega (arith, length-append g p))),
)

-- `contains` looks for an occurrence.
pub contains_iff :
    (s p : Text) → (contains s p ≡ true) ↔ ((pre rest : Text) × (s ≡ pre ++ (p ++ rest)))
unfolding contains
contains_iff s p = (
  λ h. elim (Option-cases (find s p)) [
    | inl n ↦ cc (rw (n, contains) at h)
    | inr (i, f) ↦ let (pre, rest, e, l) = find-eq-some s p f in (pre, rest, e)
  ],
  λ (pre, rest, e). let (i, f, l) = find-append pre p rest in rw (e, f, contains),
)

pub strip_prefix-eq-some : (s p : Text) {r : Text} → strip_prefix s p ≡ some r → s ≡ p ++ r
unfolding strip_prefix
strip_prefix-eq-some s [] h = ground arith
strip_prefix-eq-some [] (d ∷ p) h = cc
strip_prefix-eq-some (c ∷ s) (d ∷ p) {r} h = ground (arith, strip_prefix-eq-some s p {r = r})

pub strip_prefix-append : (p r : Text) → strip_prefix (p ++ r) p ≡ some r
unfolding strip_prefix
strip_prefix-append [] [] = refl
strip_prefix-append [] (c ∷ r) = refl
strip_prefix-append (d ∷ p) r = ground (arith, strip_prefix-append p r)

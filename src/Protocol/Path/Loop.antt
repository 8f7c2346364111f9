-- ===== src/Protocol/Path/Loop.antt =====
-- On the loop of `wildcard_match` behind the first part.
use mathlib.Core.List.{append-nil}
use lockrail.Prelude.{
  ℕ, ◌+◌, ◌<◌, ◌≡◌, ◌↔◌, refl, sym, ◌∙◌, inl, inr, Bool, Bool-cases, Option-cases, true, false,
  List, [], ◌∷◌, ◌++◌, arith, length, drop, drop-drop, none, some,
}
use lockrail.Prelude.Text.{Text, codes, is_empty, ends_with, find}
use lockrail.Prelude.Text.Search.{
  ends_with_iff, find-eq-some, find-append, drop-find, drop-append_part,
}
use lockrail.Protocol.Path.{next, done, match_part, match_parts}
use lockrail.Protocol.Path.Glob.{Tail, Tail-append}

-- Only the last part is held to the end of the text, and only if it is not empty.
abbrev pub LastOk : Text → List Text → Type 0
LastOk pattern [] = Unit
LastOk pattern (p ∷ []) = is_empty p ≡ false → ends_with pattern (codes "*") ≡ false
LastOk pattern (p ∷ q ∷ qs) = LastOk pattern (q ∷ qs)

-- What follows a part's first occurrence: the rest of the loop looks at nothing else.
Tail-find_sound :
    (s p : Text) (ps : List Text) {i : ℕ}
    → find s p ≡ some i
    → Tail ps (drop (i + length p) s)
    → Tail (p ∷ ps) s
Tail-find_sound s p ps {i} f t =
    let (pre, rest, e, l) = find-eq-some s p f in
    let a : drop (i + length p) s ≡ rest = rw (e, ← l) (drop-append_part pre p rest) in
    (pre, rest, e, rw a at t)

Tail-find_complete :
    (s p q : Text) (qs : List Text)
    → Tail (p ∷ q ∷ qs) s
    → (i : ℕ) × (find s p ≡ some i) × Tail (q ∷ qs) (drop (i + length p) s)
Tail-find_complete s p q qs (g, w, e, t) =
    let (i, f, l) = find-append g p w in
    let (x, h) = drop-find g p w l in (i, rw e f, rw (e, h) (Tail-append x q qs w t))

pub is_empty→eq : (p : Text) → is_empty p ≡ true → p ≡ []
unfolding is_empty
is_empty→eq [] h = refl
is_empty→eq (c ∷ p) h = cc

-- An empty part asks for nothing.
Tail-skip :
    (p q : Text) (qs : List Text) (s : Text)
    → is_empty p ≡ true
    → Tail (q ∷ qs) s
    → Tail (p ∷ q ∷ qs) s
Tail-skip p q qs s e t = ([], s, rw (is_empty→eq p e), t)

skip-Tail :
    (p q : Text) (qs : List Text) (s : Text)
    → is_empty p ≡ true
    → Tail (p ∷ q ∷ qs) s
    → Tail (q ∷ qs) s
skip-Tail p q qs s e (g, w, h, t) =
    let k : s ≡ g ++ w = rw (is_empty→eq p e) at h in rw k (Tail-append g q qs w t)

Tail-last_empty : (p s : Text) → is_empty p ≡ true → Tail (p ∷ []) s
Tail-last_empty p s e = (s, [], rw (is_empty→eq p e) (sym (append-nil s)), refl)

Tail-last_iff : (p s : Text) → (ends_with s p ≡ true) ↔ Tail (p ∷ []) s
Tail-last_iff p s = (
  λ h. let (r, e) = (ends_with_iff s p).0 h in (r, [], rw (append-nil p) e, refl),
  λ (g, w, e, t). (ends_with_iff s p).1 (g, rw (t, append-nil p) at e),
)

module _ (pattern value : Text) (count index cursor : ℕ) (p : Text) (behind : 0 < index) where
  -- The last part, which is empty if the pattern ends with a star.
  last_part_empty : is_empty p ≡ true → match_part pattern value count index cursor p ≡ next cursor
  unfolding match_part
  last_part_empty e = rw e

  last_part :
      is_empty p ≡ false
      → index + 1 ≡ count
      → ends_with pattern (codes "*") ≡ false
      → match_part pattern value count index cursor p ≡ done (ends_with (drop cursor value) p)
  unfolding match_part
  last_part e n o = ground arith

  middle_part_found :
      {pos : ℕ}
      → is_empty p ≡ false
      → index + 1 < count
      → find (drop cursor value) p ≡ some pos
      → match_part pattern value count index cursor p ≡ next (cursor + (pos + length p))
  unfolding match_part
  middle_part_found e n f = ground arith

  middle_part_missing :
      is_empty p ≡ false
      → index + 1 < count
      → find (drop cursor value) p ≡ none
      → match_part pattern value count index cursor p ≡ done false
  unfolding match_part
  middle_part_missing e n f = ground arith

module _ (pattern value : Text) (count index cursor : ℕ) (p : Text) (ps : List Text) where
  pub match_parts_next :
      {c : ℕ}
      → match_part pattern value count index cursor p ≡ next c
      → match_parts pattern value count index cursor (p ∷ ps)
        ≡ match_parts pattern value count (index + 1) c ps
  unfolding match_parts
  match_parts_next e = rw (e, match_parts)

  pub match_parts_done :
      {b : Bool}
      → match_part pattern value count index cursor p ≡ done b
      → match_parts pattern value count index cursor (p ∷ ps) ≡ b
  unfolding match_parts
  match_parts_done e = rw (e, match_parts)

-- The text after a cursor that has moved on.
drop_further : (value : Text) (c i n : ℕ) → drop (c + (i + n)) value ≡ drop (i + n) (drop c value)
drop_further value c i n = sym (drop-drop (i + n) c value)

module _ (pattern value : Text) (count : ℕ) where
  pub parts_sound :
      (index cursor : ℕ) (p : Text) (ps : List Text)
      → 0 < index
      → index + length (p ∷ ps) ≡ count
      → LastOk pattern (p ∷ ps)
      → match_parts pattern value count index cursor (p ∷ ps) ≡ true
      → Tail (p ∷ ps) (drop cursor value)
  parts_sound index cursor p [] b n last h = elim (Bool-cases (is_empty p)) [
    | inl e ↦ Tail-last_empty p _ e
    | inr e ↦
        let m = last_part pattern value count index cursor p b e (omega arith) (last e) in
        (Tail-last_iff p (drop cursor value)).0
          (sym (match_parts_done pattern value count index cursor p [] m) ∙ h)
  ]
  parts_sound index cursor p (q ∷ qs) b n last h = elim (Bool-cases (is_empty p)) [
    | inl e ↦
        let m = last_part_empty pattern value count index cursor p b e in
        let k = sym (match_parts_next pattern value count index cursor p (q ∷ qs) m) ∙ h in
        Tail-skip p q qs (drop cursor value) e
          (parts_sound (index + 1) cursor q qs (omega arith) (omega arith) last k)
    | inr e ↦ elim (Option-cases (find (drop cursor value) p)) [
      | inl f ↦
          let m = middle_part_missing pattern value count index cursor p b e (omega arith) f in
          cc (sym (match_parts_done pattern value count index cursor p (q ∷ qs) m) ∙ h)
      | inr (i, f) ↦
          let m = middle_part_found pattern value count index cursor p b e (omega arith) f in
          let k = sym (match_parts_next pattern value count index cursor p (q ∷ qs) m) ∙ h in
          let c = cursor + (i + length p) in
          let t = parts_sound (index + 1) c q qs (omega arith) (omega arith) last k in
          Tail-find_sound (drop cursor value) p (q ∷ qs) f
            (rw (drop_further value cursor i (length p)) at t)
    ]
  ]

  pub parts_complete :
      (index cursor : ℕ) (p : Text) (ps : List Text)
      → 0 < index
      → index + length (p ∷ ps) ≡ count
      → LastOk pattern (p ∷ ps)
      → Tail (p ∷ ps) (drop cursor value)
      → match_parts pattern value count index cursor (p ∷ ps) ≡ true
  parts_complete index cursor p [] b n last h = elim (Bool-cases (is_empty p)) [
    | inl e ↦
        match_parts_next pattern value count index cursor p []
          (last_part_empty pattern value count index cursor p b e)
        ∙ unfold match_parts in refl
    | inr e ↦
        match_parts_done pattern value count index cursor p []
          (last_part pattern value count index cursor p b e (omega arith) (last e))
        ∙ (Tail-last_iff p (drop cursor value)).1 h
  ]
  parts_complete index cursor p (q ∷ qs) b n last h = elim (Bool-cases (is_empty p)) [
    | inl e ↦
        match_parts_next pattern value count index cursor p (q ∷ qs)
          (last_part_empty pattern value count index cursor p b e)
        ∙ parts_complete (index + 1) cursor q qs (omega arith) (omega arith) last
            (skip-Tail p q qs (drop cursor value) e h)
    | inr e ↦
        let (i, f, t) = Tail-find_complete (drop cursor value) p q qs h in
        let m = middle_part_found pattern value count index cursor p b e (omega arith) f in
        match_parts_next pattern value count index cursor p (q ∷ qs) m
        ∙ parts_complete (index + 1) (cursor + (i + length p)) q qs (omega arith) (omega arith) last
            (rw (drop_further value cursor i (length p)) t)
  ]

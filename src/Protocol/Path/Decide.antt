-- ===== src/Protocol/Path/Decide.antt =====
-- On `wildcard_match` and `Glob`: the first part, a pattern without a star, and the loop.
use mathlib.Core.Path.{subst}
use mathlib.Core.List.{append-nil}
use native.Mathlib.Nat.{zero-add}
use lockrail.Prelude.{
  ℕ, ◌+◌, ◌≡◌, ◌↔◌, refl, sym, ap, ◌∙◌, inl, inr, Bool-cases, true, false, List, [], ◌∷◌, ◌++◌,
  arith, ◌==◌, length, drop, drop-length-append,
}
use lockrail.Prelude.Text.{
  Text, codes, text_eq, text_eq_iff, is_empty, starts_with, ends_with, split,
}
use lockrail.Prelude.Text.Search.{starts_with_iff, ends_with_iff}
use lockrail.Prelude.Text.Split.{split-ne-nil, split_same, split_alone, split-append_end}
use lockrail.Protocol.Path.{star, next, done, match_part, match_parts, wildcard_match}
use lockrail.Protocol.Path.Glob.{Glob, end, gap, Fits, Glob→Fits, Fits→Glob}
use lockrail.Protocol.Path.Loop.{
  LastOk, is_empty→eq, match_parts_next, match_parts_done, parts_sound, parts_complete,
}

drop_first : (value p w : Text) → value ≡ p ++ w → drop (0 + length p) value ≡ w
drop_first value p w k = rw (zero-add, k) (drop-length-append p w)

-- The first part stands at the start of the text.
module _ (pattern value : Text) (count : ℕ) (p : Text) where
  first_part_empty : is_empty p ≡ true → match_part pattern value count 0 0 p ≡ next 0
  unfolding match_part
  first_part_empty e = rw e

  first_part_found :
      is_empty p ≡ false
      → starts_with pattern (codes "*") ≡ false
      → starts_with value p ≡ true
      → match_part pattern value count 0 0 p ≡ next (0 + length p)
  unfolding match_part
  first_part_found e o h = rw (e, o, h)

  first_part_missing :
      is_empty p ≡ false
      → starts_with pattern (codes "*") ≡ false
      → starts_with value p ≡ false
      → match_part pattern value count 0 0 p ≡ done false
  unfolding match_part
  first_part_missing e o h = rw (e, o, h)

module _ (pattern value : Text) (p q : Text) (qs : List Text) where
  abbrev count : ℕ
  count = length (p ∷ q ∷ qs)

  first_sound :
      LastOk pattern (q ∷ qs)
      → (is_empty p ≡ false → starts_with pattern (codes "*") ≡ false)
      → match_parts pattern value count 0 0 (p ∷ q ∷ qs) ≡ true
      → Fits (p ∷ q ∷ qs) value
  first_sound last start h = elim (Bool-cases (is_empty p)) [
    | inl e ↦
        let m =
          match_parts_next pattern value count 0 0 p (q ∷ qs)
            (first_part_empty pattern value count p e) in
        (
          value,
          rw (is_empty→eq p e),
          parts_sound pattern value count (0 + 1) 0 q qs (omega arith) (omega arith) last
              (sym m ∙ h),
        )
    | inr e ↦ elim (Bool-cases (starts_with value p)) [
      | inl b ↦
          let m =
            match_parts_next pattern value count 0 0 p (q ∷ qs)
              (first_part_found pattern value count p e (start e) b) in
          let (w, k) = (starts_with_iff value p).0 b in
          let t =
            parts_sound pattern value count (0 + 1) (0 + length p) q qs (omega arith) (omega arith)
              last (sym m ∙ h) in
          (w, k, rw (drop_first value p w k) at t)
      | inr b ↦
          let m =
            match_parts_done pattern value count 0 0 p (q ∷ qs)
              (first_part_missing pattern value count p e (start e) b) in
          cc (sym m ∙ h)
    ]
  ]

  first_complete :
      LastOk pattern (q ∷ qs)
      → (is_empty p ≡ false → starts_with pattern (codes "*") ≡ false)
      → Fits (p ∷ q ∷ qs) value
      → match_parts pattern value count 0 0 (p ∷ q ∷ qs) ≡ true
  first_complete last start (w, k, t) = elim (Bool-cases (is_empty p)) [
    | inl e ↦
        let d : value ≡ w = rw (is_empty→eq p e) at k in
        match_parts_next pattern value count 0 0 p (q ∷ qs)
          (first_part_empty pattern value count p e)
        ∙ parts_complete pattern value count (0 + 1) 0 q qs (omega arith) (omega arith) last
            (rw d t)
    | inr e ↦
        match_parts_next pattern value count 0 0 p (q ∷ qs)
          (first_part_found pattern value count p e (start e) ((starts_with_iff value p).1 (w, k)))
        ∙ parts_complete pattern value count (0 + 1) (0 + length p) q qs (omega arith) (omega arith)
            last (rw (drop_first value p w k) t)
  ]

-- The parts of a pattern meet the conditions of the loop.
LastOk-append : (pattern : Text) (ps : List Text) → LastOk pattern (ps ++ ([] ∷ []))
unfolding is_empty
LastOk-append pattern [] = λ e. cc
LastOk-append pattern (p ∷ []) = λ e. cc
LastOk-append pattern (p ∷ q ∷ qs) = LastOk-append pattern (q ∷ qs)

LastOk-false :
    (pattern : Text) (ps : List Text) → ends_with pattern (codes "*") ≡ false → LastOk pattern ps
LastOk-false pattern [] h = tt
LastOk-false pattern (p ∷ []) h = λ e. h
LastOk-false pattern (p ∷ q ∷ qs) h = LastOk-false pattern (q ∷ qs) h

LastOk-tail : (pattern p : Text) (ps : List Text) → LastOk pattern (p ∷ ps) → LastOk pattern ps
LastOk-tail pattern p [] h = tt
LastOk-tail pattern p (q ∷ qs) h = h

LastOk-split :
    (pattern q : Text) (qs : List Text) → split pattern star ≡ q ∷ qs → LastOk pattern (q ∷ qs)
LastOk-split pattern q qs s = elim (Bool-cases (ends_with pattern (codes "*"))) [
  | inl e ↦
      let (r, h) = (ends_with_iff pattern (codes "*")).0 e in
      let (p, ps, k) = split-append_end r star in
      let both : q ∷ qs ≡ p ∷ (ps ++ ([] ∷ [])) = sym s ∙ ap (λ t. split t star) h ∙ k in
      subst (LastOk pattern) (sym both) (LastOk-append pattern (p ∷ ps))
  | inr e ↦ LastOk-false pattern (q ∷ qs) e
]

FirstOk :
    (pattern p : Text) (ps : List Text)
    → split pattern star ≡ p ∷ ps
    → is_empty p ≡ false
    → starts_with pattern (codes "*") ≡ false
unfolding is_empty
FirstOk pattern p ps e h = elim (Bool-cases (starts_with pattern (codes "*"))) [
  | inl b ↦
      let (r, k) = (starts_with_iff pattern (codes "*")).0 b in
      let both : [] ∷ split r star ≡ p ∷ ps =
        sym (split_same star r) ∙ ap (λ t. split t star) (sym k) ∙ e in
      ground arith
  | inr b ↦ b
]

split_decides :
    (pattern value q : Text) (qs : List Text)
    → split pattern star ≡ q ∷ qs
    → text_eq pattern (codes "*") ≡ false
    → (wildcard_match pattern value ≡ true) ↔ Fits (q ∷ qs) value
unfolding wildcard_match
split_decides pattern value q [] e n =
    let whole : wildcard_match pattern value ≡ text_eq pattern value = rw (n, e, wildcard_match) in
    let alone = split_alone pattern star q e in
    (
      λ h. (
        [],
        sym ((text_eq_iff pattern value).0 (sym whole ∙ h)) ∙ sym alone ∙ sym (append-nil q),
        refl,
      ),
      λ (w, k, t).
          whole
          ∙ (text_eq_iff pattern value).1 (sym alone ∙ sym (k ∙ ap (λ r. q ++ r) t ∙ append-nil q)),
    )
split_decides pattern value p (q ∷ qs) e n =
    let many : (length (p ∷ q ∷ qs) == 1) ≡ false = ground arith in
    let loop : wildcard_match pattern value
        ≡ match_parts pattern value (length (p ∷ q ∷ qs)) 0 0 (p ∷ q ∷ qs) =
      rw (n, e, many, wildcard_match) in
    let last = LastOk-tail pattern p (q ∷ qs) (LastOk-split pattern p (q ∷ qs) e) in
    let start = FirstOk pattern p (q ∷ qs) e in
    (
      λ h. first_sound pattern value p q qs last start (sym loop ∙ h),
      λ f. loop ∙ first_complete pattern value p q qs last start f,
    )

-- `wildcard_match` answers true exactly on the texts that match the pattern.
pub wildcard_match_iff :
    (pattern value : Text) → (wildcard_match pattern value ≡ true) ↔ Glob pattern value
unfolding wildcard_match
wildcard_match_iff pattern value = elim (Bool-cases (text_eq pattern (codes "*"))) [
  | inl e ↦ (
    λ h. rw ((text_eq_iff pattern (codes "*")).0 e, ← append-nil value) (gap value end),
    λ g. rw (e, wildcard_match),
  )
  | inr n ↦
      let (q, qs, e) = split-ne-nil pattern star in
      let (sound, complete) = split_decides pattern value q qs e n in
      (λ h. Fits→Glob pattern value (rw e (sound h)), λ g. complete (rw e at (Glob→Fits g)))
]

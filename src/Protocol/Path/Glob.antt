-- ===== src/Protocol/Path/Glob.antt =====
-- What a wildcard pattern means, byte by byte and part by part.
use mathlib.Core.List.{append_assoc}
use lockrail.Prelude.{
  ℕ, ◌≡◌, ◌≢◌, refl, sym, ap, ◌∙◌, inl, inr, Bool-cases, List, [], ◌∷◌, ◌++◌, ◌==◌, ==→eq, ==→ne,
}
use lockrail.Prelude.Text.{Text, push_first, split}
use lockrail.Prelude.Text.Split.{split_same, split_other, split-ne-nil}
use lockrail.Protocol.Path.{star}

-- A star stands for any bytes, none included, and any other byte for itself.
pub data Glob : Text → Text → Type 0 where
  end : Glob [] []
  byte : {c : ℕ} {p s : Text} → c ≢ star → Glob p s → Glob (c ∷ p) (c ∷ s)
  leave : {p s : Text} → Glob p s → Glob (star ∷ p) s
  take : {c : ℕ} {p s : Text} → Glob (star ∷ p) s → Glob (star ∷ p) (c ∷ s)

-- The parts stand in the text in this order, a gap before each, and the last ends the text.
abbrev pub Tail : List Text → Text → Type 0
Tail [] s = s ≡ []
Tail (p ∷ ps) s = (g w : Text) × (s ≡ g ++ (p ++ w)) × Tail ps w

-- The same, with no gap before the first part.
abbrev pub Fits : List Text → Text → Type 0
Fits [] s = ⊥
Fits (p ∷ ps) s = (w : Text) × (s ≡ p ++ w) × Tail ps w

Fits→Tail : (ps : List Text) (s : Text) → Fits ps s → Tail ps s
Fits→Tail [] s f = absurd f
Fits→Tail (p ∷ ps) s (w, e, t) = ([], w, e, t)

-- A gap may be longer.
pub Tail-append :
    (x : Text) (p : Text) (ps : List Text) (s : Text) → Tail (p ∷ ps) s → Tail (p ∷ ps) (x ++ s)
Tail-append x p ps s (g, w, e, t) =
    (x ++ g, w, ap (λ r. x ++ r) e ∙ sym (append_assoc x g (p ++ w)), t)

Fits-push : (c : ℕ) (ps : List Text) (s : Text) → Fits ps s → Fits (push_first c ps) (c ∷ s)
unfolding push_first
Fits-push c [] s f = absurd f
Fits-push c (p ∷ ps) s (w, e, t) = (w, ap (◌∷◌ c) e, t)

Tail-split : (p s : Text) → Fits (split p star) s → Tail (split p star) s
Tail-split p s f = Fits→Tail (split p star) s f

take-Fits :
    (c : ℕ) (p s : Text) → Fits (split (star ∷ p) star) s → Fits (split (star ∷ p) star) (c ∷ s)
take-Fits c p s f =
    let (q, qs, e) = split-ne-nil p star in
    rw (split_same star p, e)
      (let (w, h, t) = rw (split_same star p, e) at f in
        (c ∷ s, refl, rw (h) (Tail-append (c ∷ []) q qs w t)))

Fits-end : Fits (split [] star) []
unfolding split
Fits-end = ([], refl, refl)

pub Glob→Fits : {p s : Text} → Glob p s → Fits (split p star) s
Glob→Fits end = Fits-end
Glob→Fits (byte {c} {p} {s} ne g) = rw (split_other c star p ne) (Fits-push c _ s (Glob→Fits g))
Glob→Fits (leave {p} {s} g) = rw (split_same star p) (s, refl, Tail-split p s (Glob→Fits g))
Glob→Fits (take {c} {p} {s} g) = take-Fits c p s (Glob→Fits g)

pub gap : (g : Text) {p s : Text} → Glob p s → Glob (star ∷ p) (g ++ s)
gap [] d = leave d
gap (c ∷ g) d = take (gap g d)

Fits-push_inv :
    (c : ℕ) (p s : Text)
    → Fits (push_first c (split p star)) s
    → (r : Text) × (s ≡ c ∷ r) × Fits (split p star) r
unfolding push_first
Fits-push_inv c p s f =
    let (q, qs, e) = split-ne-nil p star in
    let (w, h, t) : Fits ((c ∷ q) ∷ qs) s = rw e at f in (q ++ w, h, rw e (w, refl, t))

-- A gap and then the parts: the text behind the gap fits them.
Tail→Fits :
    (p s : Text) → Tail (split p star) s → (g r : Text) × (s ≡ g ++ r) × Fits (split p star) r
Tail→Fits p s t =
    let (q, qs, h) = split-ne-nil p star in
    let (g, w, e, u) : Tail (q ∷ qs) s = rw h at t in (g, q ++ w, e, rw h (w, refl, u))

Fits-star_inv : (p s : Text) → Fits (split (star ∷ p) star) s → Tail (split p star) s
Fits-star_inv p s f =
    let (w, e, t) : Fits ([] ∷ split p star) s = rw (split_same star p) at f in rw e t

pub Fits→Glob : (p s : Text) → Fits (split p star) s → Glob p s
unfolding split
Fits→Glob [] s (w, e, t) = rw (e, t) end
Fits→Glob (c ∷ p) s f = elim (Bool-cases (c == star)) [
  | inl same ↦
      let k = ==→eq c star same in
      let (g, r, e, h) = Tail→Fits p s (Fits-star_inv p s (rw k at f)) in
      rw (k, e) (gap g (Fits→Glob p r h))
  | inr other ↦
      let k = ==→ne c star other in
      let (r, e, h) = Fits-push_inv c p s (rw (split_other c star p k) at f) in
      rw e (byte k (Fits→Glob p r h))
]

-- ===== src/Protocol/Presets/Meaning.antt =====
-- What the rules for the paths of a preset allow.
use lockrail.Prelude.{
  ◌≡◌, ◌↔◌, ◌⊎◌, refl, inl, inr, Bool, true, false, ◌||◌, List, [], ◌∷◌, map, any, Member, arith,
  Bool-cases, ap, ◌∙◌,
}
use lockrail.Prelude.Text.{Text, codes, text_eq, text_eq_iff, contains}
use lockrail.Protocol.Path.{matches, any_rule, wildcard_rule, exact_rule}
use lockrail.Protocol.Path.Glob.{Glob}
use lockrail.Protocol.Path.Rules.{matches_iff}
use lockrail.Protocol.Presets.{default_rule, default_path_rules}

-- What a path of a preset means: all paths, a pattern, or itself.
pub data Means (path q : Text) : Type 0 where
  all_paths : ((path ≡ codes "*") ⊎ (path ≡ codes "/*")) → Means path q
  pattern : contains path (codes "*") ≡ true → Glob path q → Means path q
  itself : contains path (codes "*") ≡ false → q ≡ path → Means path q

star_of :
    (path : Text)
    → (text_eq path (codes "*") || text_eq path (codes "/*")) ≡ true
    → (path ≡ codes "*") ⊎ (path ≡ codes "/*")
star_of path t = elim (Bool-cases (text_eq path (codes "*"))) [
  | inl e ↦ inl ((text_eq_iff path (codes "*")).0 e)
  | inr n ↦ inr ((text_eq_iff path (codes "/*")).0 (rw n at t))
]

star_to :
    (path : Text)
    → ((path ≡ codes "*") ⊎ (path ≡ codes "/*"))
    → (text_eq path (codes "*") || text_eq path (codes "/*")) ≡ true
star_to path s = ground (arith, text_eq_iff path (codes "*"), text_eq_iff path (codes "/*"), s)

default_rule→Means : (path q : Text) → matches (default_rule path) q ≡ true → Means path q
unfolding default_rule
default_rule→Means path q h =
    elim (Bool-cases (text_eq path (codes "*") || text_eq path (codes "/*"))) [
      | inl t ↦ all_paths (star_of path t)
      | inr f ↦ elim (Bool-cases (contains path (codes "*"))) [
        | inl c ↦ pattern c ((matches_iff _ q).0 (rw (f, c) at h))
        | inr n ↦ itself n ((matches_iff _ q).0 (rw (f, n) at h))
      ]
    ]

Means→default_rule : (path q : Text) → Means path q → matches (default_rule path) q ≡ true
unfolding default_rule
Means→default_rule path q m =
    elim (Bool-cases (text_eq path (codes "*") || text_eq path (codes "/*"))) [
      | inl t ↦ rw t ((matches_iff any_rule q).1 tt)
      | inr f ↦ elim m [
        | all_paths s ↦ absurd (cc (star_to path s, f))
        | pattern c g ↦ rw (f, c) ((matches_iff (wildcard_rule path) q).1 g)
        | itself n e ↦ rw (f, n) ((matches_iff (exact_rule path) q).1 e)
      ]
    ]

-- A member of a mapped list, there and back.
any-map :
    {A B : Type 0} (f : A → B) (p : B → Bool) (xs : List A)
    → (any p (map f xs) ≡ true) ↔ ((x : A) × Member x xs × (p (f x) ≡ true))
any-map f p [] = (λ h. cc, λ (x, m, e). absurd m)
any-map f p (x ∷ xs) = (
  λ h. elim (Bool-cases (p (f x))) [
    | inl e ↦ (x, inl refl, e)
    | inr n ↦ (let (y, m, e) = (any-map f p xs).0 (rw n at h) in (y, inr m, e))
  ],
  λ (y, m, e). elim m [
    | inl s ↦ rw (ap (λ z. p (f z)) s ∙ e) refl
    | inr k ↦ (let later = (any-map f p xs).1 (y, k, e) in ground arith)
  ],
)

pub default_path_rules_iff :
    (paths : List Text) (q : Text)
    → (any (λ rule. matches rule q) (default_path_rules paths) ≡ true)
      ↔ ((path : Text) × Member path paths × Means path q)
unfolding default_path_rules
default_path_rules_iff paths q = (
  λ h.
      let (p, m, e) = (any-map default_rule (λ rule. matches rule q) paths).0 h in
      (p, m, default_rule→Means p q e),
  λ (p, m, e).
      (any-map default_rule (λ rule. matches rule q) paths).1 (p, m, Means→default_rule p q e),
)

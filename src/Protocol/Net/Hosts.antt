-- ===== src/Protocol/Net/Hosts.antt =====
-- Which hosts a rule allows.
use lockrail.Prelude.{
  ◌≡◌, ◌↔◌, ◌⊎◌, inl, inr, refl, sym, ap, ◌∙◌, true, some, none, ◌++◌, arith, Bool-cases,
  Option-cases, length, length-append,
}
use lockrail.Prelude.Text.{Text, codes, text_eq, text_eq_iff, strip_prefix}
use lockrail.Prelude.Text.Search.{ends_with_iff, strip_prefix-eq-some}
use lockrail.Protocol.Net.{normalize, rule_allows, host_allowed}

-- A rule `*.d` is for the names that end in `.d`, and every rule is for its own name.
abbrev pub HostMatches : Text → Text → Type 0
HostMatches rule host =
    ((d x : Text) × (rule ≡ codes "*." ++ d) × (host ≡ x ++ (codes "." ++ d))) ⊎ (rule ≡ host)

-- A name that ends in `.d` is longer than `d`.
ne_stripped : (x d : Text) → text_eq (x ++ (codes "." ++ d)) d ≡ true → ⊥
ne_stripped x d h =
    let e = ap length ((text_eq_iff (x ++ (codes "." ++ d)) d).0 h) in
    omega (arith, length-append x (codes "." ++ d), e)

-- Behind `*.`, the name must end in `.d`.
wildcard_allows : (d x : Text) → rule_allows (codes "*." ++ d) (x ++ (codes "." ++ d)) ≡ true
unfolding rule_allows strip_prefix
wildcard_allows d x = elim (Bool-cases (text_eq (x ++ (codes "." ++ d)) d)) [
  | inl e ↦ absurd (ne_stripped x d e)
  | inr n ↦ rw ((ends_with_iff (x ++ (codes "." ++ d)) (codes "." ++ d)).1 (x, refl), n)
]

wildcard_needs :
    (d host : Text)
    → rule_allows (codes "*." ++ d) host ≡ true
    → (x : Text) × (host ≡ x ++ (codes "." ++ d))
unfolding rule_allows strip_prefix
wildcard_needs d host h = (ends_with_iff host (codes "." ++ d)).0 (ground arith)

plain_allows :
    (rule host : Text)
    → strip_prefix rule (codes "*.") ≡ none
    → rule_allows rule host ≡ text_eq rule host
unfolding rule_allows
plain_allows rule host n = rw (n, rule_allows)

rule_allows_iff : (rule host : Text) → (rule_allows rule host ≡ true) ↔ HostMatches rule host
rule_allows_iff rule host = (sound, complete)
  where
    sound : rule_allows rule host ≡ true → HostMatches rule host
    sound h = elim (Option-cases (strip_prefix rule (codes "*."))) [
      | inl n ↦ inr ((text_eq_iff rule host).0 (sym (plain_allows rule host n) ∙ h))
      | inr (d, s) ↦
          let e = strip_prefix-eq-some rule (codes "*.") s in
          let (x, k) = wildcard_needs d host (rw e at h) in inl (d, x, e, k)
    ]

    same : (d : Text) → strip_prefix rule (codes "*.") ≡ some d → rule_allows rule rule ≡ true
    same d s =
        let e = strip_prefix-eq-some rule (codes "*.") s in rw e (wildcard_allows d (codes "*"))

    complete : HostMatches rule host → rule_allows rule host ≡ true
    complete (inl (d, x, e, k)) = rw (e, k) (wildcard_allows d x)
    complete (inr e) = rw (← e) (elim (Option-cases (strip_prefix rule (codes "*."))) [
      | inl n ↦ plain_allows rule rule n ∙ (text_eq_iff rule rule).1 refl
      | inr (d, s) ↦ same d s
    ])

-- A rule allows exactly its own name and, behind `*.`, the names below one, case and final dots
-- apart.
pub host_allowed_iff :
    (rule host : Text)
    → (host_allowed rule host ≡ true) ↔ HostMatches (normalize rule) (normalize host)
unfolding host_allowed
host_allowed_iff rule host = rule_allows_iff (normalize rule) (normalize host)

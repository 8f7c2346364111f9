-- ===== src/Relay/Usage/Bound.antt =====
-- How often a capability can be used.
use Prim.Native.Nat.{min}
use mathlib.Core.Path.{subst}
use lockrail.Prelude.{
  ℕ, ◌+◌, ◌-◌, ◌%◌, ◌≤◌, ◌<◌, ◌^◌, ◌≡◌, ap, sym, ◌∙◌, true, false, some, List, [], ◌∷◌, arith, All,
  err, Bool-cases, inl, inr,
}
use native.Mathlib.Decide.{dec_lt}
use lockrail.Vault.Error.{usage_limit_exceeded}
use lockrail.Prelude.Text.{Text, text_eq, text_eq_refl, text_eq_iff}
use lockrail.Prelude.Map.{get-insert}
use lockrail.Relay.Usage.{Store, current, is_ok, record_use, Call, granted, attempts}

-- Every call for the capability names the same limit, as the token's claims do.
abbrev pub Limited : Text → ℕ → List Call → Type 0
Limited k limit cs = All (λ c. c.capability_hash ≡ k → c.max_uses ≡ some limit) cs

-- A call for another capability leaves the count alone.
other_use :
    (s : Store) (c : Call) (k : Text)
    → text_eq c.capability_hash k ≡ false
    → current (record_use s c.capability_hash c.max_uses).1 k ≡ current s k
unfolding record_use
other_use s c k n =
    ground (arith, get-insert s c.capability_hash k ((current s c.capability_hash + 1) % 2 ^ 64))

-- A call for the capability itself is granted below the limit, and counts one.
own_use :
    (s : Store) (c : Call) (limit : ℕ)
    → c.max_uses ≡ some limit
    → limit < 2 ^ 64
    → current s c.capability_hash < limit
    → (is_ok (record_use s c.capability_hash c.max_uses).0 ≡ true)
      × (current (record_use s c.capability_hash c.max_uses).1 c.capability_hash
          ≡ current s c.capability_hash + 1)
unfolding record_use
own_use s c limit m f l =
    let n = current s c.capability_hash in
    let wraps : (n + 1) % 2 ^ 64 ≡ n + 1 = omega arith in
    let law = get-insert s c.capability_hash c.capability_hash ((n + 1) % 2 ^ 64) in
    let self = text_eq_refl c.capability_hash in ground arith

own_refused :
    (s : Store) (c : Call) (limit : ℕ)
    → c.max_uses ≡ some limit
    → limit ≤ current s c.capability_hash
    → record_use s c.capability_hash c.max_uses ≡ (err usage_limit_exceeded, s)
unfolding record_use
own_refused s c limit m l = ground arith

-- Of the calls for a capability, where each names one limit below 2^64 and the count so far is
-- within it, exactly as many are granted as the limit has left, or all if they are fewer,
-- whatever happens in between.
pub granted_lem :
    (k : Text) (s : Store) (cs : List Call) (limit : ℕ)
    → limit < 2 ^ 64
    → Limited k limit cs
    → current s k ≤ limit
    → granted k s cs ≡ min (attempts k cs) (limit - current s k)
unfolding granted attempts
granted_lem k s [] limit f h l = omega arith
granted_lem k s (c ∷ cs) limit f (m, h) l = elim (Bool-cases (text_eq c.capability_hash k)) [
  | inr n ↦
      let same = other_use s c k n in
      let ih =
        granted_lem k (record_use s c.capability_hash c.max_uses).1 cs limit f h (omega arith) in
      rw n (ground arith)
  | inl e ↦
      let own = (text_eq_iff c.capability_hash k).0 e in
      elim (dec_lt (current s c.capability_hash) limit) [
        | yes free ↦
            let (granted_one, count) = own_use s c limit (m own) f free in
            let at : current (record_use s c.capability_hash c.max_uses).1 k ≡ current s k + 1 =
              sym (ap (λ j. current (record_use s c.capability_hash c.max_uses).1 j) own)
              ∙ count
              ∙ ap (λ j. current s j + 1) own in
            let free' : current s k < limit = subst (λ j. current s j < limit) own free in
            let ih =
              granted_lem k (record_use s c.capability_hash c.max_uses).1 cs limit f h
                (omega arith) in
            rw (granted_one, e) (omega arith)
        | no full ↦
            let refused = own_refused s c limit (m own) (omega arith) in
            let full' : ¬ (current s k < limit) = subst (λ j. ¬ (current s j < limit)) own full in
            let ih = granted_lem k s cs limit f h l in rw (refused, e) (omega arith)
      ]
]

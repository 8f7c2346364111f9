-- ===== src/Protocol/Path/Rules.antt =====
-- What the rules of a claim's `allowed_paths` mean.
use lockrail.Prelude.{◌≡◌, ◌↔◌, true, refl, ◌++◌}
use lockrail.Prelude.Text.{Text, text_eq_iff}
use lockrail.Prelude.Text.Search.{starts_with_iff}
use lockrail.Protocol.Path.{PathRule, PathPolicy, matches}
use lockrail.Protocol.Path.Glob.{Glob}
use lockrail.Protocol.Path.Decide.{wildcard_match_iff}

-- What a path rule means.
abbrev pub RuleMatches : PathPolicy → Text → Text → Type 0
RuleMatches PathPolicy.any value path = Unit
RuleMatches PathPolicy.exact value path = path ≡ value
RuleMatches PathPolicy.prefix value path = (r : Text) × (path ≡ value ++ r)
RuleMatches PathPolicy.wildcard value path = Glob value path

matches_policy :
    (policy : PathPolicy) (value path : Text)
    → (matches (record { policy = policy; value = value }) path ≡ true)
      ↔ RuleMatches policy value path
unfolding matches
matches_policy PathPolicy.any value path = (λ h. tt, λ h. refl)
matches_policy PathPolicy.exact value path = text_eq_iff path value
matches_policy PathPolicy.prefix value path = starts_with_iff path value
matches_policy PathPolicy.wildcard value path = wildcard_match_iff value path

-- `PathRule::matches` decides what the rule means, under each policy.
pub matches_iff :
    (rule : PathRule) (path : Text)
    → (matches rule path ≡ true) ↔ RuleMatches rule.policy rule.value path
matches_iff rule path = matches_policy rule.policy rule.value path

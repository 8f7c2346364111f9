-- ===== src/Protocol/Enforce/Permits.antt =====
-- What `enforce_request` permits, said without the order of its guards.
use mathlib.Core.Option.{get_or}
use lockrail.Prelude.{
  ◌≡◌, ◌≢◌, ◌↔◌, ◌⊎◌, inl, inr, refl, sym, ◌∙◌, Bool, true, false, ◌||◌, Option, none, some, List,
  [], ◌∷◌, ◌++◌, arith, ◌==◌, any, any_iff, Member, ok, Option-cases, Bool-cases,
}
use lockrail.Prelude.Text.{
  Text, codes, text_eq, text_eq_iff, is_empty, starts_with, ends_with, trim_end_matches,
  to_ascii_lowercase, to_ascii_uppercase,
}
use lockrail.Prelude.Membership.{any-text_iff, any-number_iff}
use lockrail.Prelude.Text.Search.{starts_with_iff, ends_with_iff}
use lockrail.Protocol.Claims.{CapabilityClaims, is_some}
use lockrail.Protocol.QueryPolicy.{QueryPolicy}
use lockrail.Protocol.Path.{PathRule, matches}
use lockrail.Protocol.Path.Rules.{RuleMatches, matches_iff}
use lockrail.Protocol.Net.{dot, normalize, host_allowed, host_is_private}
use lockrail.Protocol.Net.Addr.{Host}
use lockrail.Protocol.Net.Hosts.{HostMatches, host_allowed_iff}
use lockrail.Protocol.Url.{Url, UrlCrate}
use lockrail.Protocol.Enforce.{query_allowed, enforce_request}

-- The tests of `enforce_request`, all passed.
record Passes (crate : UrlCrate) (claims : CapabilityClaims) (method upstream : Text) (u : Url)
    : Type 0 where
  parsed : crate.parse upstream ≡ some u
  scheme :
      any (λ allowed. text_eq allowed (to_ascii_lowercase u.scheme)) claims.allowed_schemes ≡ true
  web :
      (text_eq (to_ascii_lowercase u.scheme) (codes "https")
        || text_eq (to_ascii_lowercase u.scheme) (codes "http"))
      ≡ true
  host : Host
  has_host : u.host ≡ some host
  public : host_is_private host ≡ false
  no_user : is_empty u.username ≡ true
  no_password : is_some u.password ≡ false
  no_dot : ends_with (to_ascii_lowercase (get_or u.host_str [])) (codes ".") ≡ false
  host_rule :
      any
        (λ allowed.
          host_allowed allowed (trim_end_matches (to_ascii_lowercase (get_or u.host_str [])) dot))
        claims.allowed_hosts
      ≡ true
  port : any (λ allowed. allowed == get_or u.port_or_known_default 443) claims.allowed_ports ≡ true
  method_rule :
      any (λ allowed. text_eq allowed (to_ascii_uppercase method)) claims.allowed_methods ≡ true
  path : any (λ rule. matches rule u.path) claims.allowed_paths ≡ true
  query : query_allowed claims.query_policy claims.allowed_query_prefixes u.query ≡ true

module _ (crate : UrlCrate) (claims : CapabilityClaims) (method upstream : Text) (u : Url) where
  -- The URL returned is the one parsed.
  ok-parsed : enforce_request crate claims method upstream ≡ ok u → crate.parse upstream ≡ some u
  unfolding enforce_request
  ok-parsed h = ground arith

  ok-host :
      crate.parse upstream ≡ some u
      → enforce_request crate claims method upstream ≡ ok u
      → (host : Host) × (u.host ≡ some host)
  unfolding enforce_request
  ok-host p h = elim (Option-cases u.host) [ inl n ↦ absurd (ground arith) | inr found ↦ found ]

  ok→Passes :
      enforce_request crate claims method upstream ≡ ok u → Passes crate claims method upstream u
  unfolding enforce_request
  ok→Passes h =
      let p = ok-parsed h in
      let (found, e) = ok-host p h in
      record {
        parsed = p;
        scheme = ground arith;
        web = ground arith;
        host = found;
        has_host = e;
        public = ground arith;
        no_user = ground arith;
        no_password = ground arith;
        no_dot = ground arith;
        host_rule = ground arith;
        port = ground arith;
        method_rule = ground arith;
        path = ground arith;
        query = ground arith;
      }

  Passes→ok :
      Passes crate claims method upstream u → enforce_request crate claims method upstream ≡ ok u
  unfolding enforce_request
  Passes→ok h = ground arith

abbrev pub QueryPermits : QueryPolicy → List Text → Option Text → Type 0
QueryPermits QueryPolicy.any listed query = Unit
QueryPermits QueryPolicy.none listed query = query ≡ none
QueryPermits QueryPolicy.exact listed query = Member (get_or query []) listed
QueryPermits QueryPolicy.prefix listed query =
    (p r : Text) × Member p listed × (get_or query [] ≡ p ++ r)

-- The request is one that the claims describe.
pub record Permits (crate : UrlCrate) (claims : CapabilityClaims) (method upstream : Text) (u : Url)
    : Type 0 where
  pub parsed : crate.parse upstream ≡ some u
  pub scheme_listed : Member (to_ascii_lowercase u.scheme) claims.allowed_schemes
  pub web :
      (to_ascii_lowercase u.scheme ≡ codes "https") ⊎ (to_ascii_lowercase u.scheme ≡ codes "http")
  pub public_host : (host : Host) × (u.host ≡ some host) × (host_is_private host ≡ false)
  pub no_credentials : (u.username ≡ []) × (u.password ≡ none)
  pub no_final_dot : (r : Text) → to_ascii_lowercase (get_or u.host_str []) ≢ r ++ codes "."
  pub host_listed :
      (rule : Text) × Member rule claims.allowed_hosts
      × HostMatches
          (normalize rule)
          (normalize (trim_end_matches (to_ascii_lowercase (get_or u.host_str [])) dot))
  pub port_listed : Member (get_or u.port_or_known_default 443) claims.allowed_ports
  pub method_listed : Member (to_ascii_uppercase method) claims.allowed_methods
  pub path_listed :
      (rule : PathRule) × Member rule claims.allowed_paths
      × RuleMatches rule.policy rule.value u.path
  pub query_permitted : QueryPermits claims.query_policy claims.allowed_query_prefixes u.query

query_iff :
    (policy : QueryPolicy) (listed : List Text) (query : Option Text)
    → (query_allowed policy listed query ≡ true) ↔ QueryPermits policy listed query
unfolding query_allowed
query_iff QueryPolicy.any listed query = (λ h. tt, λ h. refl)
query_iff QueryPolicy.none listed query = (λ h. ground arith, λ h. ground arith)
query_iff QueryPolicy.exact listed query = any-text_iff (get_or query []) listed
query_iff QueryPolicy.prefix listed query = (
  λ h.
      let (p, m, e) = (any_iff (λ a. starts_with (get_or query []) a) listed).0 h in
      let (r, k) = (starts_with_iff (get_or query []) p).0 e in (p, r, m, k),
  λ (p, r, m, k).
      (any_iff (λ a. starts_with (get_or query []) a) listed).1
        (p, m, (starts_with_iff (get_or query []) p).1 (r, k)),
)

is_empty_iff : (s : Text) → (is_empty s ≡ true) ↔ (s ≡ [])
unfolding is_empty
is_empty_iff [] = (λ h. refl, λ h. refl)
is_empty_iff (c ∷ s) = (λ h. cc, λ h. cc)

module _ (crate : UrlCrate) (claims : CapabilityClaims) (method upstream : Text) (u : Url) where
  abbrev name : Text
  name = to_ascii_lowercase (get_or u.host_str [])

  abbrev scheme_is : Text → Bool
  scheme_is = text_eq (to_ascii_lowercase u.scheme)

  web_iff : ((scheme_is (codes "https") || scheme_is (codes "http")) ≡ true) ↔ (
      (to_ascii_lowercase u.scheme ≡ codes "https") ⊎ (to_ascii_lowercase u.scheme ≡ codes "http"))
  web_iff =
      let s = text_eq_iff (to_ascii_lowercase u.scheme) (codes "https") in
      let p = text_eq_iff (to_ascii_lowercase u.scheme) (codes "http") in
      (
        λ h. elim (Bool-cases (scheme_is (codes "https"))) [
          | inl b ↦ inl (s.0 b)
          | inr b ↦ inr (p.0 (ground arith))
        ],
        λ h. elim h [
          | inl e ↦ let b = s.1 e in ground arith
          | inr e ↦ let b = p.1 e in ground arith
        ],
      )

  Passes→Permits : Passes crate claims method upstream u → Permits crate claims method upstream u
  Passes→Permits p = record {
    parsed = p.parsed;
    scheme_listed = (any-text_iff (to_ascii_lowercase u.scheme) claims.allowed_schemes).0 p.scheme;
    web = web_iff.0 p.web;
    public_host = (p.host, p.has_host, p.public);
    no_credentials = ((is_empty_iff u.username).0 p.no_user, ground (arith, p.no_password));
    no_final_dot = λ r e. cc (sym p.no_dot ∙ (ends_with_iff name (codes ".")).1 (r, e));
    host_listed =
        let (rule, m, e) =
          (any_iff (λ a. host_allowed a (trim_end_matches name dot)) claims.allowed_hosts).0
            p.host_rule in
        (rule, m, (host_allowed_iff rule (trim_end_matches name dot)).0 e);
    port_listed = (any-number_iff _ claims.allowed_ports).0 p.port;
    method_listed =
        (any-text_iff (to_ascii_uppercase method) claims.allowed_methods).0 p.method_rule;
    path_listed =
        let (rule, m, e) = (any_iff (λ rule. matches rule u.path) claims.allowed_paths).0 p.path in
        (rule, m, (matches_iff rule u.path).0 e);
    query_permitted =
        (query_iff claims.query_policy claims.allowed_query_prefixes u.query).0 p.query;
  }

  Permits→Passes : Permits crate claims method upstream u → Passes crate claims method upstream u
  Permits→Passes p = record {
    parsed = p.parsed;
    scheme = (any-text_iff (to_ascii_lowercase u.scheme) claims.allowed_schemes).1 p.scheme_listed;
    web = web_iff.1 p.web;
    host = p.public_host.0;
    has_host = p.public_host.1;
    public = p.public_host.2;
    no_user = (is_empty_iff u.username).1 p.no_credentials.0;
    no_password = ground (arith, p.no_credentials.1);
    no_dot = elim (Bool-cases (ends_with name (codes "."))) [
      | inl b ↦ let (r, e) = (ends_with_iff name (codes ".")).0 b in absurd (p.no_final_dot r e)
      | inr b ↦ b
    ];
    host_rule =
        let (rule, m, e) = p.host_listed in
        (any_iff (λ a. host_allowed a (trim_end_matches name dot)) claims.allowed_hosts).1
          (rule, m, (host_allowed_iff rule (trim_end_matches name dot)).1 e);
    port = (any-number_iff _ claims.allowed_ports).1 p.port_listed;
    method_rule =
        (any-text_iff (to_ascii_uppercase method) claims.allowed_methods).1 p.method_listed;
    path =
        let (rule, m, e) = p.path_listed in
        (any_iff (λ rule. matches rule u.path) claims.allowed_paths).1
          (rule, m, (matches_iff rule u.path).1 e);
    query =
        (query_iff claims.query_policy claims.allowed_query_prefixes u.query).1 p.query_permitted;
  }

-- A request is let through, with its parsed URL, exactly if the claims permit it.
pub enforce_request_iff :
    (crate : UrlCrate) (claims : CapabilityClaims) (method upstream : Text) (u : Url)
    → (enforce_request crate claims method upstream ≡ ok u) ↔ Permits crate claims method upstream u
enforce_request_iff crate claims method upstream u = (
  λ h. Passes→Permits crate claims method upstream u (ok→Passes crate claims method upstream u h),
  λ p. Passes→ok crate claims method upstream u (Permits→Passes crate claims method upstream u p),
)

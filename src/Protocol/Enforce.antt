-- ===== src/Protocol/Enforce.antt =====
-- `enforce_request`, `enforce_content_type` and `enforce_body_size` of
-- crates/lockrail-protocol/src/lib.rs.
pub mod Permits
pub mod Limits
use mathlib.Core.Option.{get_or}
use mathlib.Core.List.{head?}
use lockrail.Prelude.{
  ℕ, Bool, true, false, not, ◌&&◌, ◌||◌, Option, none, some, List, [], ◌∷◌, ltb, ◌==◌,
  if◌then◌else◌, any, Result, ok, err, ◌>>=◌, ◌>>◌, reject_if, ok_or,
}
use lockrail.Prelude.Text.{
  Text, codes, text_eq, is_empty, starts_with, ends_with, split, trim_end_matches,
  to_ascii_lowercase, to_ascii_uppercase, eq_ignore_ascii_case,
}
use lockrail.Prelude.Text.Trim.{trim}
use lockrail.Protocol.Error.{
  ProtocolError, Outcome, url, scheme_not_allowed, host_not_allowed, ip_not_allowed,
  port_not_allowed, method_not_allowed, path_not_allowed, query_not_allowed,
  content_type_not_allowed, body_too_large,
}
use lockrail.Protocol.Claims.{CapabilityClaims, is_some}
use lockrail.Protocol.QueryPolicy.{QueryPolicy}
use lockrail.Protocol.Path.{PathRule, matches}
use lockrail.Protocol.Net.{dot, host_allowed, host_is_private}
use lockrail.Protocol.Url.{Url, UrlCrate}

-- The `match` on the query policy.
unfoldable pub query_allowed : QueryPolicy → List Text → Option Text → Bool
query_allowed QueryPolicy.any listed query = true
query_allowed QueryPolicy.none listed query = not (is_some query)
query_allowed QueryPolicy.exact listed query =
    any (λ allowed. text_eq allowed (get_or query [])) listed
query_allowed QueryPolicy.prefix listed query =
    any (λ allowed. starts_with (get_or query []) allowed) listed

-- The guards in the order of the source; a `require` with a false test is its early return.
abbrev pub require : Bool → ProtocolError → Outcome (Unit {0})
require test e = reject_if (not test) e

unfoldable pub enforce_request : UrlCrate → CapabilityClaims → Text → Text → Outcome Url
enforce_request crate claims method upstream = do
  u ← ok_or (crate.parse upstream) url
  let scheme = to_ascii_lowercase u.scheme
  require (any (λ allowed. text_eq allowed scheme) claims.allowed_schemes)
      (scheme_not_allowed scheme)
  require (text_eq scheme (codes "https") || text_eq scheme (codes "http"))
      (scheme_not_allowed scheme)
  host ← ok_or u.host (host_not_allowed [])
  reject_if (not (is_empty u.username) || is_some u.password)
      (host_not_allowed (get_or u.host_str []))
  reject_if (host_is_private host) (ip_not_allowed (crate.display_host host))
  let dotted = to_ascii_lowercase (get_or u.host_str [])
  reject_if (ends_with dotted (codes ".")) (host_not_allowed dotted)
  let host_str = trim_end_matches dotted dot
  require (any (λ allowed. host_allowed allowed host_str) claims.allowed_hosts)
      (host_not_allowed host_str)
  let port = get_or u.port_or_known_default 443
  require (any (λ allowed. allowed == port) claims.allowed_ports) (port_not_allowed port)
  let method' = to_ascii_uppercase method
  require (any (λ allowed. text_eq allowed method') claims.allowed_methods)
      (method_not_allowed method')
  require (any (λ rule. matches rule u.path) claims.allowed_paths) (path_not_allowed u.path)
  require (query_allowed claims.query_policy claims.allowed_query_prefixes u.query)
      query_not_allowed
  ok u

-- `content_type.split(';').next().unwrap_or(content_type).trim().to_ascii_lowercase()`
pub media_type : Text → Text
media_type content_type =
    to_ascii_lowercase (trim (get_or (head? (split content_type b';')) content_type))

unfoldable pub enforce_content_type : CapabilityClaims → Option Text → Outcome (Unit {0})
enforce_content_type claims none = ok tt
enforce_content_type claims (some content_type) =
    let normalized = media_type content_type in
    require (any (λ allowed. eq_ignore_ascii_case allowed normalized) claims.content_type_allowlist)
      (content_type_not_allowed normalized)

unfoldable pub enforce_body_size : CapabilityClaims → ℕ → Outcome (Unit {0})
enforce_body_size claims size = elim claims.max_body_size [
  | none ↦ ok tt
  | some limit ↦ reject_if (ltb limit size) body_too_large
]

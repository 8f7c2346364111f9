-- ===== src/Protocol/Claims.antt =====
-- `CapabilityClaims` and `CapabilityClaims::new` of
-- crates/lockrail-protocol/src/lib.rs.
use lockrail.Prelude.{ℕ, Bool, true, false, Option, none, some, List, [], ◌∷◌, map, if◌then◌else◌}
use lockrail.Prelude.Text.{
  Text, codes, text_eq, contains, ends_with, to_ascii_lowercase, to_ascii_uppercase,
}
use lockrail.Prelude.Int64.{add, times}
use lockrail.Protocol.QueryPolicy.{QueryPolicy}
use lockrail.Protocol.Path.{PathRule, any_rule, wildcard_rule, prefix_rule, exact_rule}

-- Times are of type i64, in the form of `Prelude.Int64`; `cap_id` is the number of a UUID.
pub record CapabilityClaims : Type 0 where
  pub version : Text
  pub cap_id : ℕ
  pub key : Text
  pub aud : Text
  pub iat : ℕ
  pub nbf : ℕ
  pub exp : ℕ
  pub allowed_schemes : List Text
  pub allowed_hosts : List Text
  pub allowed_ports : List ℕ
  pub allowed_methods : List Text
  pub allowed_paths : List PathRule
  pub query_policy : QueryPolicy
  pub allowed_query_prefixes : List Text
  pub content_type_allowlist : List Text
  pub max_body_size : Option ℕ
  pub inject_header : Text
  pub inject_prefix : Text
  pub max_uses : Option ℕ
  pub require_proof : Bool
  pub agent_public_key : Option Text
  pub task_id : Option Text
  pub purpose : Option Text
  pub revoked : Bool
  pub labels : List (Text × Text)

abbrev pub lrap_version : Text
lrap_version = codes "LRAP/0.3"

abbrev pub default_audience : Text
default_audience = codes "lockrail-relay"

abbrev pub is_some : Option Text → Bool
is_some none = false
is_some (some t) = true

-- The policy that the text of an allowed path stands for.
unfoldable pub path_rule : Text → PathRule
path_rule path =
    if text_eq path (codes "*")
    then any_rule
    else if contains path (codes "*")
    then wildcard_rule path
    else if ends_with path (codes "/")
    then prefix_rule path
    else exact_rule path

-- `now` is the clock's value and `cap_id` the fresh UUID.
unfoldable pub new :
    (now cap_id : ℕ) (key : Text) (minutes : ℕ)
    (allowed_hosts allowed_methods allowed_paths : List Text) (inject_header inject_prefix : Text)
    (max_uses : Option ℕ) (agent_public_key task_id purpose : Option Text)
    → CapabilityClaims
unfolding path_rule
new now cap_id key minutes hosts methods paths header prefix uses agent_key task purpose = record {
  version = lrap_version;
  cap_id = cap_id;
  key = key;
  aud = default_audience;
  iat = now;
  nbf = now;
  exp = add now (times minutes 60);
  allowed_schemes = codes "https" ∷ [];
  allowed_hosts = map to_ascii_lowercase hosts;
  allowed_ports = 443 ∷ [];
  allowed_methods = map to_ascii_uppercase methods;
  allowed_paths = map path_rule paths;
  query_policy = QueryPolicy.any;
  allowed_query_prefixes = [];
  content_type_allowlist =
      codes "application/json" ∷ codes "application/x-www-form-urlencoded" ∷ [];
  max_body_size = some 1048576;
  inject_header = header;
  inject_prefix = prefix;
  max_uses = uses;
  require_proof = is_some agent_key;
  agent_public_key = agent_key;
  task_id = task;
  purpose = purpose;
  revoked = false;
  labels = [];
}

-- ===== src/Protocol/Presets/First.antt =====
-- The presets of crates/lockrail-protocol/src/presets.rs, from its first on.
use lockrail.Prelude.{[], ◌∷◌}
use lockrail.Prelude.Int64.{of_nat}
use lockrail.Prelude.Text.{codes}
use lockrail.Protocol.Presets.Preset.{ServicePreset, InjectionMethod}
use lockrail.Protocol.QueryPolicy.{QueryPolicy}

abbrev pub openai : ServicePreset
openai = record {
  id = codes "openai";
  display = codes "OpenAI";
  detection_hints = codes "sk-" ∷ codes "sk-proj-" ∷ [];
  hosts = codes "api.openai.com" ∷ [];
  schemes = codes "https" ∷ [];
  ports = 443 ∷ [];
  methods = codes "POST" ∷ [];
  paths = codes "/v1/*" ∷ [];
  query_policy = QueryPolicy.none;
  injection_method = InjectionMethod.header;
  inject_header = codes "Authorization";
  inject_prefix = codes "Bearer ";
  recommended_ttl_minutes = of_nat 30;
  recommended_max_uses = 10;
  notes = codes "OpenAI API bearer token";
}

abbrev pub anthropic : ServicePreset
anthropic = record {
  id = codes "anthropic";
  display = codes "Anthropic";
  detection_hints = codes "sk-ant-" ∷ [];
  hosts = codes "api.anthropic.com" ∷ [];
  schemes = codes "https" ∷ [];
  ports = 443 ∷ [];
  methods = codes "POST" ∷ [];
  paths = codes "/v1/*" ∷ [];
  query_policy = QueryPolicy.none;
  injection_method = InjectionMethod.header;
  inject_header = codes "x-api-key";
  inject_prefix = [];
  recommended_ttl_minutes = of_nat 30;
  recommended_max_uses = 10;
  notes = codes "Anthropic API key";
}

abbrev pub github : ServicePreset
github = record {
  id = codes "github";
  display = codes "GitHub";
  detection_hints = codes "ghp_" ∷ codes "github_pat_" ∷ [];
  hosts = codes "api.github.com" ∷ [];
  schemes = codes "https" ∷ [];
  ports = 443 ∷ [];
  methods = codes "GET" ∷ codes "POST" ∷ codes "PUT" ∷ codes "PATCH" ∷ codes "DELETE" ∷ [];
  paths = codes "/*" ∷ [];
  query_policy = QueryPolicy.none;
  injection_method = InjectionMethod.header;
  inject_header = codes "Authorization";
  inject_prefix = codes "Bearer ";
  recommended_ttl_minutes = of_nat 15;
  recommended_max_uses = 20;
  notes = codes "GitHub token";
}

abbrev pub gitlab : ServicePreset
gitlab = record {
  id = codes "gitlab";
  display = codes "GitLab";
  detection_hints = codes "glpat-" ∷ [];
  hosts = codes "gitlab.com" ∷ [];
  schemes = codes "https" ∷ [];
  ports = 443 ∷ [];
  methods = codes "GET" ∷ codes "POST" ∷ codes "PUT" ∷ codes "PATCH" ∷ codes "DELETE" ∷ [];
  paths = codes "/api/*" ∷ [];
  query_policy = QueryPolicy.none;
  injection_method = InjectionMethod.header;
  inject_header = codes "PRIVATE-TOKEN";
  inject_prefix = [];
  recommended_ttl_minutes = of_nat 15;
  recommended_max_uses = 20;
  notes = codes "GitLab access token";
}

abbrev pub slack : ServicePreset
slack = record {
  id = codes "slack";
  display = codes "Slack";
  detection_hints = codes "xoxb-" ∷ codes "xoxp-" ∷ [];
  hosts = codes "slack.com" ∷ codes "api.slack.com" ∷ [];
  schemes = codes "https" ∷ [];
  ports = 443 ∷ [];
  methods = codes "POST" ∷ [];
  paths = codes "/api/*" ∷ [];
  query_policy = QueryPolicy.none;
  injection_method = InjectionMethod.header;
  inject_header = codes "Authorization";
  inject_prefix = codes "Bearer ";
  recommended_ttl_minutes = of_nat 15;
  recommended_max_uses = 20;
  notes = codes "Slack token";
}

abbrev pub stripe : ServicePreset
stripe = record {
  id = codes "stripe";
  display = codes "Stripe";
  detection_hints = codes "sk_live_" ∷ codes "sk_test_" ∷ [];
  hosts = codes "api.stripe.com" ∷ [];
  schemes = codes "https" ∷ [];
  ports = 443 ∷ [];
  methods = codes "GET" ∷ codes "POST" ∷ codes "DELETE" ∷ [];
  paths = codes "/v1/*" ∷ [];
  query_policy = QueryPolicy.none;
  injection_method = InjectionMethod.header;
  inject_header = codes "Authorization";
  inject_prefix = codes "Bearer ";
  recommended_ttl_minutes = of_nat 15;
  recommended_max_uses = 20;
  notes = codes "Stripe secret key";
}

abbrev pub aws : ServicePreset
aws = record {
  id = codes "aws";
  display = codes "AWS";
  detection_hints = codes "AKIA" ∷ codes "ASIA" ∷ codes "secret_access_key" ∷ [];
  hosts = codes "*.amazonaws.com" ∷ [];
  schemes = codes "https" ∷ [];
  ports = 443 ∷ [];
  methods = codes "GET" ∷ codes "POST" ∷ codes "PUT" ∷ codes "PATCH" ∷ codes "DELETE" ∷ [];
  paths = codes "/*" ∷ [];
  query_policy = QueryPolicy.any;
  injection_method = InjectionMethod.header;
  inject_header = codes "Authorization";
  inject_prefix = [];
  recommended_ttl_minutes = of_nat 5;
  recommended_max_uses = 5;
  notes = codes "Use for pre-signed or adapter-mediated AWS flows";
}

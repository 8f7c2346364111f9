-- ===== src/Protocol/Presets/Middle.antt =====
-- The presets of crates/lockrail-protocol/src/presets.rs, those between.
use lockrail.Prelude.{[], ◌∷◌}
use lockrail.Prelude.Int64.{of_nat}
use lockrail.Prelude.Text.{codes}
use lockrail.Protocol.Presets.Preset.{ServicePreset, InjectionMethod}
use lockrail.Protocol.QueryPolicy.{QueryPolicy}

abbrev pub gcp : ServicePreset
gcp = record {
  id = codes "gcp";
  display = codes "GCP";
  detection_hints = codes "AIza" ∷ codes "Bearer " ∷ [];
  hosts = codes "*.googleapis.com" ∷ [];
  schemes = codes "https" ∷ [];
  ports = 443 ∷ [];
  methods = codes "GET" ∷ codes "POST" ∷ codes "PUT" ∷ codes "PATCH" ∷ codes "DELETE" ∷ [];
  paths = codes "/*" ∷ [];
  query_policy = QueryPolicy.any;
  injection_method = InjectionMethod.header;
  inject_header = codes "Authorization";
  inject_prefix = codes "Bearer ";
  recommended_ttl_minutes = of_nat 15;
  recommended_max_uses = 20;
  notes = codes "Google API or OAuth bearer token";
}

abbrev pub azure : ServicePreset
azure = record {
  id = codes "azure";
  display = codes "Azure";
  detection_hints = codes "Bearer " ∷ [];
  hosts = codes "management.azure.com" ∷ codes "*.azure.com" ∷ [];
  schemes = codes "https" ∷ [];
  ports = 443 ∷ [];
  methods = codes "GET" ∷ codes "POST" ∷ codes "PUT" ∷ codes "PATCH" ∷ codes "DELETE" ∷ [];
  paths = codes "/*" ∷ [];
  query_policy = QueryPolicy.any;
  injection_method = InjectionMethod.header;
  inject_header = codes "Authorization";
  inject_prefix = codes "Bearer ";
  recommended_ttl_minutes = of_nat 15;
  recommended_max_uses = 20;
  notes = codes "Azure bearer token";
}

abbrev pub cloudflare : ServicePreset
cloudflare = record {
  id = codes "cloudflare";
  display = codes "Cloudflare";
  detection_hints = codes "cfp_" ∷ [];
  hosts = codes "api.cloudflare.com" ∷ [];
  schemes = codes "https" ∷ [];
  ports = 443 ∷ [];
  methods = codes "GET" ∷ codes "POST" ∷ codes "PUT" ∷ codes "PATCH" ∷ codes "DELETE" ∷ [];
  paths = codes "/client/*" ∷ [];
  query_policy = QueryPolicy.none;
  injection_method = InjectionMethod.header;
  inject_header = codes "Authorization";
  inject_prefix = codes "Bearer ";
  recommended_ttl_minutes = of_nat 15;
  recommended_max_uses = 20;
  notes = codes "Cloudflare API token";
}

abbrev pub vercel : ServicePreset
vercel = record {
  id = codes "vercel";
  display = codes "Vercel";
  detection_hints = codes "vercel_" ∷ [];
  hosts = codes "api.vercel.com" ∷ [];
  schemes = codes "https" ∷ [];
  ports = 443 ∷ [];
  methods = codes "GET" ∷ codes "POST" ∷ codes "PUT" ∷ codes "PATCH" ∷ codes "DELETE" ∷ [];
  paths = codes "/v*" ∷ [];
  query_policy = QueryPolicy.none;
  injection_method = InjectionMethod.header;
  inject_header = codes "Authorization";
  inject_prefix = codes "Bearer ";
  recommended_ttl_minutes = of_nat 15;
  recommended_max_uses = 20;
  notes = codes "Vercel token";
}

abbrev pub netlify : ServicePreset
netlify = record {
  id = codes "netlify";
  display = codes "Netlify";
  detection_hints = codes "ntl_" ∷ [];
  hosts = codes "api.netlify.com" ∷ [];
  schemes = codes "https" ∷ [];
  ports = 443 ∷ [];
  methods = codes "GET" ∷ codes "POST" ∷ codes "PUT" ∷ codes "PATCH" ∷ codes "DELETE" ∷ [];
  paths = codes "/api/*" ∷ [];
  query_policy = QueryPolicy.none;
  injection_method = InjectionMethod.header;
  inject_header = codes "Authorization";
  inject_prefix = codes "Bearer ";
  recommended_ttl_minutes = of_nat 15;
  recommended_max_uses = 20;
  notes = codes "Netlify token";
}

abbrev pub supabase : ServicePreset
supabase = record {
  id = codes "supabase";
  display = codes "Supabase";
  detection_hints = codes "sbp_" ∷ codes "apikey" ∷ [];
  hosts = codes "*.supabase.co" ∷ [];
  schemes = codes "https" ∷ [];
  ports = 443 ∷ [];
  methods = codes "GET" ∷ codes "POST" ∷ codes "PUT" ∷ codes "PATCH" ∷ codes "DELETE" ∷ [];
  paths = codes "/*" ∷ [];
  query_policy = QueryPolicy.none;
  injection_method = InjectionMethod.header;
  inject_header = codes "apikey";
  inject_prefix = [];
  recommended_ttl_minutes = of_nat 15;
  recommended_max_uses = 20;
  notes = codes "Supabase API key";
}

-- ===== src/Protocol/Presets/Last.antt =====
-- The presets of crates/lockrail-protocol/src/presets.rs, up to its last.
use lockrail.Prelude.{[], ◌∷◌, ◌++◌}
use lockrail.Prelude.Int64.{of_nat}
use lockrail.Prelude.Text.{codes}
use lockrail.Protocol.Presets.Preset.{ServicePreset, InjectionMethod}
use lockrail.Protocol.QueryPolicy.{QueryPolicy}

abbrev pub discord : ServicePreset
discord = record {
  id = codes "discord";
  display = codes "Discord";
  detection_hints = codes "Bearer " ∷ codes "eyJ" ∷ [];
  hosts = codes "discord.com" ∷ codes "discordapp.com" ∷ [];
  schemes = codes "https" ∷ [];
  ports = 443 ∷ [];
  methods = codes "GET" ∷ codes "POST" ∷ [];
  paths = codes "/api/*" ∷ [];
  query_policy = QueryPolicy.none;
  injection_method = InjectionMethod.header;
  inject_header = codes "Authorization";
  inject_prefix = codes "Bot ";
  recommended_ttl_minutes = of_nat 15;
  recommended_max_uses = 20;
  notes = codes "Discord bot token";
}

abbrev pub generic_bearer : ServicePreset
generic_bearer = record {
  id = codes "generic-bearer";
  display = codes "Generic Bearer";
  detection_hints = codes "Bearer " ∷ codes "token" ∷ [];
  hosts = [];
  schemes = codes "https" ∷ [];
  ports = 443 ∷ [];
  methods = codes "GET" ∷ codes "POST" ∷ codes "PUT" ∷ codes "PATCH" ∷ codes "DELETE" ∷ [];
  paths = codes "/*" ∷ [];
  query_policy = QueryPolicy.any;
  injection_method = InjectionMethod.header;
  inject_header = codes "Authorization";
  inject_prefix = codes "Bearer ";
  recommended_ttl_minutes = of_nat 10;
  recommended_max_uses = 10;
  notes = codes "Vendor-agnostic bearer token preset";
}

abbrev pub generic_api_key_header : ServicePreset
generic_api_key_header = record {
  id = codes "generic-api-key-header";
  display = codes "Generic API Key Header";
  detection_hints = codes "api_key" ∷ codes "apikey" ∷ codes "x-api-key" ∷ [];
  hosts = [];
  schemes = codes "https" ∷ [];
  ports = 443 ∷ [];
  methods = codes "GET" ∷ codes "POST" ∷ codes "PUT" ∷ codes "PATCH" ∷ codes "DELETE" ∷ [];
  paths = codes "/*" ∷ [];
  query_policy = QueryPolicy.any;
  injection_method = InjectionMethod.header;
  inject_header = codes "x-api-key";
  inject_prefix = [];
  recommended_ttl_minutes = of_nat 10;
  recommended_max_uses = 10;
  notes = codes "Vendor-agnostic API key header preset";
}

abbrev pub generic_query_api_key : ServicePreset
generic_query_api_key = record {
  id = codes "generic-query-api-key";
  display = codes "Generic Query API Key";
  detection_hints = codes "api_key" ∷ codes "apikey" ∷ [];
  hosts = [];
  schemes = codes "https" ∷ [];
  ports = 443 ∷ [];
  methods = codes "GET" ∷ [];
  paths = codes "/*" ∷ [];
  query_policy = QueryPolicy.prefix;
  injection_method = InjectionMethod.query;
  inject_header = codes "api_key";
  inject_prefix = [];
  recommended_ttl_minutes = of_nat 5;
  recommended_max_uses = 5;
  notes = codes "Vendor-agnostic query-string API key preset";
}

abbrev pub gemini : ServicePreset
gemini = record {
  id = codes "gemini";
  display = codes "Google Gemini / Antigravity";
  detection_hints = codes "AIza" ∷ [];
  hosts = codes "generativelanguage.googleapis.com" ∷ [];
  schemes = codes "https" ∷ [];
  ports = 443 ∷ [];
  methods = codes "POST" ∷ [];
  paths = codes "/v1beta/*" ∷ codes "/v1/*" ∷ [];
  query_policy = QueryPolicy.none;
  injection_method = InjectionMethod.header;
  inject_header = codes "x-goog-api-key";
  inject_prefix = [];
  recommended_ttl_minutes = of_nat 30;
  recommended_max_uses = 10;
  notes =
      codes "Google Gemini API key "
      ++ (226 ∷ 128 ∷ 148 ∷ codes " used by Antigravity (agy) and direct Gemini callers");
}

-- ===== src/Cli/PresetClaims/Tests.antt =====
-- A capability for the preset `openai`.
use lockrail.Prelude.{◌≡◌, refl, Option, none, some, List, [], ◌∷◌, Result, ok, err}
use lockrail.Prelude.Int64.{of_nat}
use lockrail.Prelude.Text.{Text, codes, eq_ignore_ascii_case}
use lockrail.Protocol.Claims.{CapabilityClaims, new}
use lockrail.Protocol.Enforce.{enforce_request}
use lockrail.Protocol.Enforce.Permits.{enforce_request_iff}
use lockrail.Protocol.Net.Addr.{Host}
use lockrail.Protocol.Presets.{preset, default_path_rules}
use lockrail.Protocol.Presets.First.{openai}
use lockrail.Protocol.Samples
use lockrail.Protocol.Url.{Url, UrlCrate}
use lockrail.Vault.Error.{missing}
use lockrail.Vault.Exec.{Failure, Session, refused}
use lockrail.Cli.PresetClaims.{
  Asked, preset_claims, apply_preset, base_claims, or_preset, query_prefixes,
}
use lockrail.Cli.PresetClaims.Within.{WithinPreset, preset_claims-Permits, preset_claims-paths}

abbrev asked : Asked
asked = record {
  key_name = codes "openai/demo";
  minutes = of_nat 5;
  hosts = [];
  methods = [];
  paths = codes "/v1/models" ∷ [];
  selected_preset = some (codes "OpenAI");
  agent = none;
  task_id = none;
  purpose = none;
}

abbrev no_vault : Result Failure Session
no_vault = err (refused missing)

abbrev granted : CapabilityClaims
granted = apply_preset (some openai) (base_claims (of_nat 1000) 7 asked (some openai))

abbrev url : Url
url = record Samples.url {
  as_str = codes "https://api.openai.com/v1/chat";
  host = some (Host.domain (codes "api.openai.com"));
  host_str = some (codes "api.openai.com");
  path = codes "/v1/chat";
}

abbrev crate : UrlCrate
crate = record { parse = λ s. some url; display_host = λ h. [] }

known : preset (codes "OpenAI") ≡ some openai
unfolding preset eq_ignore_ascii_case
known = refl

made : preset_claims (of_nat 1000) 7 no_vault asked ≡ ok granted
unfolding preset_claims preset eq_ignore_ascii_case
made = refl

passes :
    enforce_request crate granted (codes "post") (codes "https://api.openai.com/v1/chat") ≡ ok url
unfolding enforce_request apply_preset lockrail.Prelude.Text.text_eq
    lockrail.Prelude.Text.to_ascii_lowercase lockrail.Prelude.Text.is_empty
    lockrail.Protocol.Net.host_is_private lockrail.Prelude.Text.trim_end_matches
    lockrail.Prelude.Text.ends_with base_claims new lockrail.Protocol.Net.host_allowed
    lockrail.Prelude.Text.strip_prefix lockrail.Prelude.Text.to_ascii_uppercase default_path_rules
    lockrail.Protocol.Path.matches lockrail.Prelude.Text.contains
    lockrail.Protocol.Path.wildcard_match lockrail.Prelude.Text.split or_preset query_prefixes
    lockrail.Prelude.Text.find lockrail.Prelude.Text.push_first lockrail.Prelude.Text.starts_with
    lockrail.Protocol.Claims.path_rule lockrail.Protocol.Enforce.query_allowed
    lockrail.Protocol.Net.is_blocked_ip lockrail.Protocol.Path.match_part
    lockrail.Protocol.Path.match_parts lockrail.Protocol.Presets.default_rule
passes = refl

preset_claims-Permits_example : WithinPreset openai (codes "post") url
preset_claims-Permits_example =
    preset_claims-Permits (of_nat 1000) 7 no_vault asked (codes "OpenAI") openai granted crate
      (codes "post") (codes "https://api.openai.com/v1/chat") url refl refl refl known made
      ((enforce_request_iff crate granted (codes "post") (codes "https://api.openai.com/v1/chat")
          url).0
        passes)

preset_claims-paths_example :
    preset_claims (of_nat 1000) 7 no_vault (record asked { paths = codes "/v1/chat" ∷ [] })
    ≡ preset_claims (of_nat 1000) 7 no_vault asked
preset_claims-paths_example =
    preset_claims-paths (of_nat 1000) 7 no_vault asked (codes "OpenAI") openai
      (codes "/v1/chat" ∷ []) refl known

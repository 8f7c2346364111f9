-- ===== src/Protocol/Presets.antt =====
-- The presets of services: crates/lockrail-protocol/src/presets.rs.
pub mod Preset
pub mod First
pub mod Middle
pub mod Last
pub mod Meaning
use lockrail.Prelude.{Bool, ◌||◌, Option, none, some, List, [], ◌∷◌, map, if◌then◌else◌}
use lockrail.Prelude.Text.{Text, codes, text_eq, contains, eq_ignore_ascii_case}
use lockrail.Protocol.Path.{PathRule, any_rule, wildcard_rule, exact_rule}
use lockrail.Protocol.Presets.Preset.{ServicePreset}
use lockrail.Protocol.Presets.First.{openai, anthropic, github, gitlab, slack, stripe, aws}
use lockrail.Protocol.Presets.Middle.{gcp, azure, cloudflare, vercel, netlify, supabase}
use lockrail.Protocol.Presets.Last.{
  discord, generic_bearer, generic_api_key_header, generic_query_api_key, gemini,
}

abbrev pub presets : List ServicePreset
presets =
    openai ∷ anthropic ∷ github ∷ gitlab ∷ slack ∷ stripe ∷ aws ∷ gcp ∷ azure ∷ cloudflare ∷ vercel
    ∷ netlify ∷ supabase ∷ discord ∷ generic_bearer ∷ generic_api_key_header ∷ generic_query_api_key
    ∷ gemini ∷ []

-- `find` on the table.
find_preset : Text → List ServicePreset → Option ServicePreset
find_preset id [] = none
find_preset id (p ∷ ps) =
    let rest = find_preset id ps in if eq_ignore_ascii_case p.id id then some p else rest

unfoldable pub preset : Text → Option ServicePreset
unfolding find_preset
preset id = find_preset id presets

unfoldable pub default_rule : Text → PathRule
default_rule path =
    if text_eq path (codes "*") || text_eq path (codes "/*")
    then any_rule
    else if contains path (codes "*")
    then wildcard_rule path
    else exact_rule path

unfoldable pub default_path_rules : List Text → List PathRule
unfolding default_rule
default_path_rules paths = map default_rule paths

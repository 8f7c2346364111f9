-- ===== src/Cli/PresetClaims.antt =====
-- `preset_claims` of crates/lockrail-cli/src/main.rs: the claims of a capability that is granted on
-- the command line. `now` is the clock's value and `cap_id` the fresh UUID; `opened` is what
-- `Vault::open` returns with the password that the user gives.
pub mod Within
mod Tests
use mathlib.Core.Option
use mathlib.Core.Option.{get_or}
use lockrail.Prelude.{
  ℕ, Bool, true, false, Option, none, some, List, [], ◌∷◌, ◌++◌, Result, ok, err, ◌>>=◌,
}
use lockrail.Prelude.Text.{Text, codes}
use lockrail.Protocol.Claims.{CapabilityClaims, new}
use lockrail.Protocol.Presets.{preset, default_path_rules}
use lockrail.Protocol.Presets.Preset.{ServicePreset, InjectionMethod}
use lockrail.Vault.Agents.{agent_public}
use lockrail.Vault.Exec.{Failure, Session}

pub record Asked : Type 0 where
  pub key_name : Text
  pub minutes : ℕ
  pub hosts : List Text
  pub methods : List Text
  pub paths : List Text
  pub selected_preset : Option Text
  pub agent : Option Text
  pub task_id : Option Text
  pub purpose : Option Text

-- What is asked for, or what the preset has, or the default.
or_preset : List Text → Option (List Text) → List Text → List Text
or_preset [] from_preset default = get_or from_preset default
or_preset (x ∷ xs) from_preset default = x ∷ xs

query_prefixes : ServicePreset → List Text → List Text
query_prefixes p prefixes = elim p.injection_method [
  | InjectionMethod.query ↦ (p.inject_header ++ codes "=") ∷ []
  | InjectionMethod.header ↦ prefixes
]

-- `if let Some(preset) = resolved_preset`
apply_preset : Option ServicePreset → CapabilityClaims → CapabilityClaims
unfolding query_prefixes
apply_preset none claims = claims
apply_preset (some p) claims = record claims {
  allowed_schemes = p.schemes;
  allowed_ports = p.ports;
  allowed_paths = default_path_rules p.paths;
  query_policy = p.query_policy;
  max_uses = some p.recommended_max_uses;
  allowed_query_prefixes = query_prefixes p claims.allowed_query_prefixes;
}

-- `selected_preset.and_then(preset)`
resolve : Option Text → Option ServicePreset
resolve none = none
resolve (some id) = preset id

base_claims : (now cap_id : ℕ) → Asked → Option ServicePreset → CapabilityClaims
unfolding or_preset
base_claims now cap_id asked resolved =
    new now cap_id asked.key_name asked.minutes
      (or_preset asked.hosts (Option.map (λ (p : ServicePreset). p.hosts) resolved) [])
      (or_preset asked.methods (Option.map (λ (p : ServicePreset). p.methods) resolved)
        (codes "POST" ∷ []))
      (or_preset asked.paths (Option.map (λ (p : ServicePreset). p.paths) resolved)
        (codes "/*" ∷ []))
      (get_or (Option.map (λ (p : ServicePreset). p.inject_header) resolved)
        (codes "Authorization"))
      (get_or (Option.map (λ (p : ServicePreset). p.inject_prefix) resolved) (codes "Bearer "))
      (some (get_or (Option.map (λ (p : ServicePreset). p.recommended_max_uses) resolved) 10)) none
      asked.task_id asked.purpose

-- `if let Some(agent_id) = agent`
bind_agent :
    Option Text → Result Failure Session → CapabilityClaims → Result Failure CapabilityClaims
bind_agent none opened claims = ok claims
bind_agent (some agent_id) opened claims = do
  s ← opened
  public ← (agent_public agent_id s).0
  ok (record claims { agent_public_key = some public.public_key; require_proof = true })

pub preset_claims :
    (now cap_id : ℕ) → (opened : Result Failure Session) → Asked → Result Failure CapabilityClaims
unfolding apply_preset resolve base_claims bind_agent
preset_claims now cap_id opened asked =
    let resolved = resolve asked.selected_preset in
    bind_agent asked.agent opened (apply_preset resolved (base_claims now cap_id asked resolved))

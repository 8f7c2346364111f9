-- ===== src/Cli/PresetClaims/Within.antt =====
-- What a capability for a preset permits.
use mathlib.Core.Path.{subst}
use mathlib.Core.Option.{get_or}
use lockrail.Prelude.{
  ℕ, ◌≡◌, refl, Option, none, some, List, [], ◌∷◌, ◌++◌, map, Result, ok, >>=-eq-ok, ok_inj, Member,
  any_iff,
}
use lockrail.Prelude.Text.{Text, codes, to_ascii_lowercase, to_ascii_uppercase, trim_end_matches}
use lockrail.Protocol.Claims.{CapabilityClaims, new}
use lockrail.Protocol.Enforce.Permits.{Permits, QueryPermits}
use lockrail.Protocol.Net.{dot, normalize}
use lockrail.Protocol.Net.Hosts.{HostMatches}
use lockrail.Protocol.Path.{matches}
use lockrail.Protocol.Path.Rules.{matches_iff}
use lockrail.Protocol.Presets.{preset, default_path_rules}
use lockrail.Protocol.Presets.Meaning.{Means, default_path_rules_iff}
use lockrail.Protocol.Presets.Preset.{ServicePreset, InjectionMethod}
use lockrail.Protocol.Url.{Url, UrlCrate}
use lockrail.Vault.Agents.{agent_public}
use lockrail.Vault.Exec.{Failure, Session}
use lockrail.Cli.PresetClaims.{
  Asked, apply_preset, resolve, base_claims, or_preset, query_prefixes, bind_agent, preset_claims,
}

-- The texts that a query may be matched with are the injected parameter's name, or none.
pub record InjectedOnly (p : ServicePreset) (listed : List Text) : Type 0 where
  pub by_query :
      p.injection_method ≡ InjectionMethod.query → listed ≡ (p.inject_header ++ codes "=") ∷ []
  pub by_header : p.injection_method ≡ InjectionMethod.header → listed ≡ []

-- The request is one that the preset is for.
pub record WithinPreset (p : ServicePreset) (method : Text) (u : Url) : Type 0 where
  pub scheme : Member (to_ascii_lowercase u.scheme) p.schemes
  pub port : Member (get_or u.port_or_known_default 443) p.ports
  pub path : (path : Text) × Member path p.paths × Means path u.path
  pub host :
      (rule : Text) × Member rule (map to_ascii_lowercase p.hosts)
      × HostMatches
          (normalize rule)
          (normalize (trim_end_matches (to_ascii_lowercase (get_or u.host_str [])) dot))
  pub method_listed : Member (to_ascii_uppercase method) (map to_ascii_uppercase p.methods)
  pub query :
      (listed : List Text) × InjectedOnly p listed × QueryPermits p.query_policy listed u.query

-- The claims are for the preset, but for the agent.
record ForPreset (p : ServicePreset) (claims : CapabilityClaims) : Type 0 where
  schemes : claims.allowed_schemes ≡ p.schemes
  ports : claims.allowed_ports ≡ p.ports
  paths : claims.allowed_paths ≡ default_path_rules p.paths
  hosts : claims.allowed_hosts ≡ map to_ascii_lowercase p.hosts
  methods : claims.allowed_methods ≡ map to_ascii_uppercase p.methods
  policy : claims.query_policy ≡ p.query_policy
  prefixes : InjectedOnly p claims.allowed_query_prefixes

bind_agent-ForPreset :
    (p : ServicePreset) (agent : Option Text) (opened : Result Failure Session)
    (claims c : CapabilityClaims)
    → ForPreset p claims
    → bind_agent agent opened claims ≡ ok c
    → ForPreset p c
unfolding bind_agent
bind_agent-ForPreset p none opened claims c f h = subst (λ c. ForPreset p c) (ok_inj h) f
bind_agent-ForPreset p (some id) opened claims c f h =
    let (s, e, h₁) = >>=-eq-ok opened _ h in
    let (public, e', h₂) = >>=-eq-ok (agent_public id s).0 _ h₁ in
    subst (λ c. ForPreset p c) (ok_inj h₂)
      (record {
        schemes = f.schemes;
        ports = f.ports;
        paths = f.paths;
        hosts = f.hosts;
        methods = f.methods;
        policy = f.policy;
        prefixes = f.prefixes;
      })

query_prefixes-InjectedOnly : (p : ServicePreset) → InjectedOnly p (query_prefixes p [])
unfolding query_prefixes
query_prefixes-InjectedOnly p = record { by_query = λ e. rw e refl; by_header = λ e. rw e refl }

base-ForPreset :
    (now cap_id : ℕ) (asked : Asked) (p : ServicePreset)
    → asked.hosts ≡ []
    → asked.methods ≡ []
    → ForPreset p (apply_preset (some p) (base_claims now cap_id asked (some p)))
unfolding apply_preset base_claims new or_preset
base-ForPreset now cap_id asked p h m = record {
  schemes = refl;
  ports = refl;
  paths = refl;
  hosts = rw h refl;
  methods = rw m refl;
  policy = refl;
  prefixes = query_prefixes-InjectedOnly p;
}

ForPreset→Within :
    (p : ServicePreset) (c : CapabilityClaims) (crate : UrlCrate) (method upstream : Text) (u : Url)
    → ForPreset p c
    → Permits crate c method upstream u
    → WithinPreset p method u
ForPreset→Within p c crate method upstream u f r =
    let (rule, m, means) = r.path_listed in
    let hit =
      (any_iff (λ rule. matches rule u.path) (default_path_rules p.paths)).1
        (rule, subst (λ rules. Member rule rules) f.paths m, (matches_iff rule u.path).1 means) in
    let (host_rule, k, matching) = r.host_listed in
    record {
      scheme = subst (λ xs. Member (to_ascii_lowercase u.scheme) xs) f.schemes r.scheme_listed;
      port = subst (λ xs. Member (get_or u.port_or_known_default 443) xs) f.ports r.port_listed;
      path = (default_path_rules_iff p.paths u.path).0 hit;
      host = (host_rule, subst (λ xs. Member host_rule xs) f.hosts k, matching);
      method_listed = subst (λ xs. Member (to_ascii_uppercase method) xs) f.methods r.method_listed;
      query = (
        c.allowed_query_prefixes,
        f.prefixes,
        subst (λ policy. QueryPermits policy c.allowed_query_prefixes u.query) f.policy
            r.query_permitted,
      );
    }

-- The claims that are granted for a preset, where neither hosts nor methods are asked for, permit
-- only requests that the preset is for, whatever paths and agent are asked for: by its schemes,
-- ports, hosts, methods and paths, and by its query policy, where the parameter that it injects
-- is the only one it lists.
pub preset_claims-Permits :
    (now cap_id : ℕ) (opened : Result Failure Session) (asked : Asked) (id : Text)
    (p : ServicePreset) (c : CapabilityClaims) (crate : UrlCrate) (method upstream : Text) (u : Url)
    → asked.hosts ≡ []
    → asked.methods ≡ []
    → asked.selected_preset ≡ some id
    → preset id ≡ some p
    → preset_claims now cap_id opened asked ≡ ok c
    → Permits crate c method upstream u
    → WithinPreset p method u
unfolding preset_claims resolve
preset_claims-Permits now cap_id opened asked id p c crate method upstream u hosts methods selected
      known made permitted =
    ForPreset→Within p c crate method upstream u
      (bind_agent-ForPreset p asked.agent opened _ c
        (base-ForPreset now cap_id asked p hosts methods) (rw (selected, known) at made))
      permitted

-- Where a preset is selected, the claims are the same whatever paths are asked for.
pub preset_claims-paths :
    (now cap_id : ℕ) (opened : Result Failure Session) (asked : Asked) (id : Text)
    (p : ServicePreset) (paths : List Text)
    → asked.selected_preset ≡ some id
    → preset id ≡ some p
    → preset_claims now cap_id opened (record asked { paths = paths })
      ≡ preset_claims now cap_id opened asked
unfolding preset_claims resolve apply_preset base_claims new
preset_claims-paths now cap_id opened asked id p paths selected known = rw (selected, known) refl

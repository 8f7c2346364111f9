-- ===== src/Cli/Inject/Tests.antt =====
-- A vault with the password of Lockrail itself among its secrets.
use lockrail.Prelude.{◌≡◌, ◌≢◌, ◌⊎◌, refl, none, some, [], ◌∷◌, ◌++◌, ok}
use lockrail.Prelude.Map.{Map, get, insert}
use lockrail.Prelude.Text.{Text, codes, text_eq, to_ascii_uppercase}
use lockrail.Vault.Document.{SecretRecord, VaultData}
use lockrail.Cli.Inject.{sanitize_env_key, collect, build_env_map, child_env, run_shell}
use lockrail.Cli.Inject.Variables.{FromSecret, child_env_lem}

digit_first : sanitize_env_key (codes "42foo") ≡ codes "SECRET_42FOO"
unfolding sanitize_env_key to_ascii_uppercase
digit_first = refl

-- "héllo", in bytes
two_bytes : sanitize_env_key (codes "h" ++ (195 ∷ 169 ∷ codes "llo")) ≡ codes "H_LLO"
unfolding sanitize_env_key to_ascii_uppercase
two_bytes = refl

abbrev secret : Text → Text → SecretRecord
secret name value = record {
  value = value;
  metadata = record {
    name = name;
    kind = codes "generic";
    fingerprint = [];
    redacted_preview = [];
    created_at = 0;
    updated_at = 0;
    last_used_at = none;
    tags = codes "env:default" ∷ [];
  };
}

abbrev vault : VaultData
vault = record {
  version = 2;
  created_at = 0;
  keys =
      (codes "my-key", secret (codes "my-key") (codes "one"))
      ∷ (codes "my_key", secret (codes "my_key") (codes "two"))
      ∷ (codes "lockrail_password", secret (codes "lockrail_password") (codes "three"))
      ∷ [];
  signing_private_key = [];
  revoked_capabilities = [];
  revoked_agents = [];
  capability_usage = [];
  agents = [];
}

-- Two names, one variable: the later name's value stays.
collision : get (collect vault.keys []) (codes "MY_KEY") ≡ some (codes "two")
unfolding collect to_ascii_uppercase get text_eq insert
collision = refl

abbrev parent : Map Text
parent = (codes "PATH", codes "/bin") ∷ (codes "LOCKRAIL_PASSWORD", codes "pw") ∷ []

shell : run_shell (λ e a m. some (some 3)) parent vault none ≡ ok 3
unfolding run_shell
shell = refl

child_env_lem_example :
    ((codes "MY_KEY" ≡ codes "LOCKRAIL_PASSWORD")
      × (get (child_env parent (build_env_map vault none)) (codes "MY_KEY") ≡ none))
    ⊎ ((codes "MY_KEY" ≢ codes "LOCKRAIL_PASSWORD")
        × (((v : Text) × (get (child_env parent (build_env_map vault none)) (codes "MY_KEY")
                ≡ some v)
              × FromSecret vault none (codes "MY_KEY") v)
            ⊎ (((v : Text) → FromSecret vault none (codes "MY_KEY") v → ⊥)
                × (get (child_env parent (build_env_map vault none)) (codes "MY_KEY")
                    ≡ get parent (codes "MY_KEY")))))
unfolding get text_eq
child_env_lem_example = child_env_lem parent vault none (codes "MY_KEY") (refl, (refl, tt))

-- ===== src/Cli/Inject.antt =====
-- crates/lockrail-cli/src/inject.rs: the secrets of an environment as variables of a child process.
-- `spawn` is `Command::status`, given the executable, the arguments and the variables of the child.
pub mod Named
pub mod Variables
mod Tests
use mathlib.Core.Option.{get_or}
use lockrail.Prelude.{
  ℕ, Bool, false, ◌&&◌, Option, none, some, List, [], ◌∷◌, ◌++◌, any, leb, ltb, Result, ok, err,
  if◌then◌else◌,
}
use lockrail.Prelude.Map.{Map, get, insert, retain, remove}
use lockrail.Prelude.Text.{
  Text, codes, text_eq, is_ascii_digit, is_ascii_alphanumeric, to_ascii_uppercase,
}
use lockrail.Vault.Document.{SecretRecord, VaultData}
use lockrail.Vault.Order.{in_order}

-- Of a character with several bytes, the first becomes `_` and the others go.
sanitized_byte : ℕ → Text → Text
sanitized_byte c rest =
    if leb 128 c && ltb c 192
    then rest
    else if is_ascii_alphanumeric c
    then c ∷ rest
    else b'_' ∷ rest

sanitized : Text → Text
unfolding sanitized_byte
sanitized [] = []
sanitized (c ∷ s) = sanitized_byte c (sanitized s)

starts_with_digit : Text → Bool
starts_with_digit [] = false
starts_with_digit (c ∷ s) = is_ascii_digit c

unfoldable pub sanitize_env_key : Text → Text
unfolding sanitized starts_with_digit
sanitize_env_key name =
    let key = sanitized (to_ascii_uppercase name) in
    if starts_with_digit key then codes "SECRET_" ++ key else key

has_tag : Text → SecretRecord → Bool
has_tag env_tag r = any (λ t. text_eq t env_tag) r.metadata.tags

-- `collect` into a map: of two secrets with one key, the later stays.
unfoldable pub collect : Map SecretRecord → Map Text → Map Text
unfolding sanitize_env_key
collect [] m = m
collect ((name, r) ∷ rs) m = collect rs (insert m (sanitize_env_key name) r.value)

-- The secrets with the tag of the environment, by name.
unfoldable pub selected : VaultData → Option Text → Map SecretRecord
unfolding has_tag
selected d environment =
    let env_tag = codes "env:" ++ get_or environment (codes "default") in
    retain (has_tag env_tag) (in_order d.keys)

unfoldable pub build_env_map : VaultData → Option Text → Map Text
unfolding selected collect
build_env_map d environment = collect (selected d environment) []

-- `Command::envs`: each entry takes the place of what the child would inherit.
unfoldable pub envs : Map Text → Map Text → Map Text
envs parent [] = parent
envs parent ((k, v) ∷ m) = envs (insert parent k v) m

unfoldable pub child_env : Map Text → Map Text → Map Text
unfolding envs
child_env parent env_map = remove (envs parent env_map) (codes "LOCKRAIL_PASSWORD")

pub data InjectError : Type 0 where
  no_command failed_to_spawn : InjectError

-- The exit code, or 1 where a signal killed the process.
exit_code : Option (Option ℕ) → Result InjectError ℕ
exit_code none = err failed_to_spawn
exit_code (some code) = ok (get_or code 1)

unfoldable pub run_injected :
    (spawn : Text → List Text → Map Text → Option (Option ℕ))
    → (parent : Map Text) → VaultData
    → Option Text
    → List Text
    → Result InjectError ℕ
unfolding exit_code child_env
run_injected spawn parent d environment [] = err no_command
run_injected spawn parent d environment (executable ∷ arguments) =
    exit_code (spawn executable arguments (child_env parent (build_env_map d environment)))

-- Not on Windows.
unfoldable pub run_shell :
    (spawn : Text → List Text → Map Text → Option (Option ℕ))
    → (parent : Map Text) → VaultData
    → Option Text
    → Result InjectError ℕ
unfolding run_injected
run_shell spawn parent d environment =
    let shell = get_or (get parent (codes "SHELL")) (codes "sh") in
    run_injected spawn parent d environment (shell ∷ [])

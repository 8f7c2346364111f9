-- ===== src/Protocol/Seal/Table.antt =====
-- `scan_text` of seal.rs with its tables, and the operations over it.
pub mod Sound
pub mod Handles
mod Tests
use lockrail.Prelude.{
  ℕ, Bool, true, false, List, [], ◌∷◌, ◌++◌, keep, Result, ok, err, ◌>>=◌, ok_or, Option,
}
use lockrail.Prelude.Text.{Text, codes}
use lockrail.Protocol.Crypto.{Crypto}
use lockrail.Protocol.Seal.{
  SecretConfidence, low, medium, high, ScanOptions, SecretFinding, normalize_findings,
  replace_with_handles,
}
use lockrail.Protocol.Seal.Step.{Turn, Stop, panicked, scan_loop, turns}
use lockrail.Protocol.Seal.Scan.{prefixed_turn, bearer_turn, jwt_turn, key_block_turn, url_turn}
use lockrail.Protocol.Seal.Assign.{assignment_turn, entropy_turn}

-- What a call of `scan_prefixed` looks for.
pub record Prefixed : Type 0 where
  pub prefix : Text
  pub kind : Text
  pub min_len : ℕ
  pub confidence : SecretConfidence

abbrev prefixed : Text → Text → ℕ → SecretConfidence → Prefixed
prefixed prefix kind min_len confidence = record {
  prefix = prefix;
  kind = kind;
  min_len = min_len;
  confidence = confidence;
}

-- From the variants of GitHub's tokens on.
pub variant_table : List Prefixed
variant_table =
    prefixed (codes "ghs_") (codes "github-app-token") 20 high
    ∷ prefixed (codes "ghu_") (codes "github-user-token") 20 high
    ∷ prefixed (codes "gho_") (codes "github-oauth-token") 20 high
    ∷ prefixed (codes "ghr_") (codes "github-refresh-token") 20 high
    ∷ prefixed (codes "npm_") (codes "npm-token") 24 high
    ∷ prefixed (codes "pypi-") (codes "pypi-token") 24 high
    ∷ prefixed (codes "hf_") (codes "huggingface-token") 20 high
    ∷ prefixed (codes "whsec_") (codes "stripe-webhook-secret") 16 high
    ∷ prefixed (codes "dp.pt.") (codes "doppler-token") 16 high
    ∷ prefixed (codes "hvs.") (codes "vault-service-token") 20 high
    ∷ prefixed (codes "hvb.") (codes "vault-batch-token") 20 high
    ∷ prefixed (codes "SG.") (codes "sendgrid-key") 32 medium
    ∷ []

pub prefix_table : List Prefixed
unfolding variant_table
prefix_table =
    prefixed (codes "sk-proj-") (codes "openai-key") 18 high
    ∷ prefixed (codes "sk-ant-") (codes "anthropic-key") 18 high
    ∷ prefixed (codes "ghp_") (codes "github-token") 20 high
    ∷ prefixed (codes "github_pat_") (codes "github-token") 24 high
    ∷ prefixed (codes "glpat-") (codes "gitlab-token") 16 high
    ∷ prefixed (codes "xoxb-") (codes "slack-bot-token") 16 high
    ∷ prefixed (codes "xoxp-") (codes "slack-user-token") 16 high
    ∷ prefixed (codes "sk_live_") (codes "stripe-key") 16 high
    ∷ prefixed (codes "sk_test_") (codes "stripe-key") 16 high
    ∷ prefixed (codes "AKIA") (codes "aws-access-key-id") 20 high
    ∷ prefixed (codes "ASIA") (codes "aws-session-key-id") 20 high
    ∷ prefixed (codes "AIza") (codes "google-api-key") 20 high
    ∷ prefixed (codes "cfp_") (codes "cloudflare-token") 16 high
    ∷ prefixed (codes "vercel_") (codes "vercel-token") 16 high
    ∷ prefixed (codes "ntl_") (codes "netlify-token") 16 high
    ∷ prefixed (codes "sbp_") (codes "supabase-token") 16 high
    ∷ variant_table

pub url_schemes : List Text
url_schemes =
    codes "postgresql://"
    ∷ codes "postgres://"
    ∷ codes "mysql://"
    ∷ codes "mongodb+srv://"
    ∷ codes "mongodb://"
    ∷ codes "redis://"
    ∷ codes "rediss://"
    ∷ codes "amqp://"
    ∷ codes "amqps://"
    ∷ []

-- A key of `scan_assignment`.
pub record Assigned : Type 0 where
  pub key : Text
  pub kind : Text
  pub confidence : SecretConfidence

abbrev assigned : Text → Text → SecretConfidence → Assigned
assigned key kind confidence = record { key = key; kind = kind; confidence = confidence }

pub assignment_table : List Assigned
assignment_table =
    assigned (codes "api_key") (codes "api-key") high
    ∷ assigned (codes "apikey") (codes "api-key") high
    ∷ assigned (codes "api_secret") (codes "api-secret") high
    ∷ assigned (codes "token") (codes "token-value") medium
    ∷ assigned (codes "password") (codes "password") high
    ∷ assigned (codes "passwd") (codes "password") high
    ∷ assigned (codes "client_secret") (codes "client-secret") high
    ∷ assigned (codes "client_token") (codes "client-token") high
    ∷ assigned (codes "access_token") (codes "oauth-access-token") high
    ∷ assigned (codes "refresh_token") (codes "oauth-refresh-token") high
    ∷ assigned (codes "id_token") (codes "oauth-id-token") medium
    ∷ assigned (codes "secret_access_key") (codes "aws-secret-access-key") high
    ∷ assigned (codes "aws_secret_access_key") (codes "aws-secret-access-key") high
    ∷ assigned (codes "database_url") (codes "database-url") high
    ∷ assigned (codes "db_url") (codes "database-url") high
    ∷ assigned (codes "connection_string") (codes "database-url") high
    ∷ assigned (codes "private_key") (codes "private-key") high
    ∷ assigned (codes "webhook_secret") (codes "webhook-secret") high
    ∷ assigned (codes "gemini_api_key") (codes "gemini-api-key") high
    ∷ assigned (codes "antigravity_api_key") (codes "antigravity-api-key") high
    ∷ assigned (codes "google_api_key") (codes "google-api-key") high
    ∷ assigned (codes "gcp_api_key") (codes "gcp-api-key") high
    ∷ []

abbrev pub Found : Type 0
Found = Result Stop (List SecretFinding)

-- One scanner after another, on one output.
pub scan_each {ℓ} : {A : Type ℓ} → (A → Found) → List A → Found
scan_each scan [] = ok []
scan_each scan (a ∷ rest) = do fs ← scan a; gs ← scan_each scan rest; ok (fs ++ gs)

pub record SealResult : Type 0 where
  pub safe_text : Text
  pub findings : List SecretFinding

module _ (c : Crypto) (entropy_at_least_3_6 : Text → Bool) where
  -- A scanner's loop from the start of the text.
  pub scan_with : (input : Text) → (ℕ → Option Turn) → Found
  unfolding scan_loop
  scan_with input step = scan_loop step (turns input) 0

  pub scan_prefixed : ScanOptions → Text → Prefixed → Found
  unfolding scan_with prefixed_turn
  scan_prefixed options input p =
      scan_with input (prefixed_turn c options input p.prefix p.kind p.min_len p.confidence)

  pub scan_database_url : ScanOptions → Text → Text → Found
  unfolding scan_with url_turn
  scan_database_url options input scheme = scan_with input (url_turn c options input scheme)

  pub scan_assignment : ScanOptions → Text → Assigned → Found
  unfolding scan_with assignment_turn
  scan_assignment options input k =
      scan_with input (assignment_turn c options input k.key k.kind k.confidence)

  -- Every finding, before `normalize_findings`.
  pub scan_all : Text → ScanOptions → Found
  unfolding scan_with scan_each scan_prefixed scan_database_url scan_assignment prefix_table
      url_schemes assignment_table bearer_turn jwt_turn key_block_turn entropy_turn
  scan_all input options = do
    prefixes ← scan_each (scan_prefixed options input) prefix_table
    bearers ← scan_with input (bearer_turn c options input)
    jwts ← scan_with input (jwt_turn c options input)
    blocks ← scan_with input (key_block_turn c options input)
    urls ← scan_each (scan_database_url options input) url_schemes
    assignments ← scan_each (scan_assignment options input) assignment_table
    entropies ← scan_with input (entropy_turn c entropy_at_least_3_6 options input)
    ok (prefixes ++ (bearers ++ (jwts ++ (blocks ++ (urls ++ (assignments ++ entropies))))))

  unfoldable pub scan_text : Text → ScanOptions → Found
  unfolding scan_all normalize_findings
  scan_text input options = do out ← scan_all input options; ok (normalize_findings out)

  -- `SealOptions` has the fields of `ScanOptions`.
  pub seal_text : Text → ScanOptions → Result Stop SealResult
  unfolding scan_text replace_with_handles
  seal_text input options = do
    findings ← scan_text input options
    safe ←
        ok_or (replace_with_handles input (keep (λ (f : SecretFinding). f.should_seal) findings))
          panicked
    ok (record { safe_text = safe; findings = findings })

  pub redact_for_display : Text → Result Stop Text
  unfolding seal_text
  redact_for_display input = do
    result ← seal_text input (record { aggressive = true; protection_mode = true })
    ok result.safe_text

  pub redact_for_logs : Text → Result Stop Text
  unfolding redact_for_display
  redact_for_logs input = redact_for_display input

  pub detect_secrets : Text → Found
  unfolding scan_text
  detect_secrets input = scan_text input (record { aggressive = false; protection_mode = true })

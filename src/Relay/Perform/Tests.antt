-- ===== src/Relay/Perform/Tests.antt =====
-- A request with a proof, and the same request again.
use lockrail.Prelude.{
  ◌≡◌, ◌⊎◌, zero, suc, Bool, true, false, none, some, List, [], ◌∷◌, ◌++◌, Result, err, arith,
}
use lockrail.Prelude.Int64.{of_nat}
use lockrail.Prelude.Text.{Text, codes}
use lockrail.Audit.{AuditCodec, AuditEvent}
use lockrail.Audit
use lockrail.Protocol.Claims.{CapabilityClaims, new}
use lockrail.Protocol.Json.{Json}
use lockrail.Protocol.Net.Addr.{v4}
use lockrail.Protocol.Proof.{AccessProof}
use lockrail.Protocol.Samples.{toy, url_crate, payload_value, body_value}
use lockrail.Protocol.Token.{ClaimsCodec, token_prefix}
use lockrail.Relay.Perform.{Meets, perform_relay}
use lockrail.Relay.Perform.Authorised.{Authorised, perform_relay-Authorised}
use lockrail.Relay.Replay
use lockrail.Relay.Replay.{Use}
use lockrail.Relay.Request.{RelayRequest}
use lockrail.Relay.Usage
use lockrail.Relay.World.{Outside, World, Sent, memory_replay, memory_usage}
use lockrail.Vault.Document.{VaultData, SecretRecord, test_fast}
use lockrail.Vault.Exec.{Session, written}
use lockrail.Vault.Libraries.{Libraries}
use lockrail.Vault.Save.{Io}

abbrev key_text : Text
key_text = toy.b64_encode (toy.verifying_key [])

abbrev claims : CapabilityClaims
claims =
    new (of_nat 1000) 7 (codes "API_KEY") (of_nat 5) (codes "*.example.com" ∷ []) (codes "get" ∷ [])
      (codes "/v1/*" ∷ []) (codes "Authorization") (codes "Bearer ") (some 3) (some key_text) none
      none

abbrev codec : ClaimsCodec
codec = record { to_value = λ x. some Json.null; from_slice = λ s. some claims }

abbrev libs : Libraries
libs = record {
  crypto = toy;
  entropy_at_least_3_6 = λ t. false;
  argon2 = λ p s k. some p;
  encrypt = λ k n a m. some m;
  decrypt = λ k n a c. some c;
  aad = λ v k s. some [];
  data_to_vec = λ d. some [];
  value_from_slice = λ t. none;
  data_from_value = λ j. none;
  envelope_to_vec_pretty = λ e. some [];
  envelope_from_slice = λ t. none;
  number_as_i64 = λ t. none;
  capabilities_from_value = λ j. none;
  usage_from_value = λ j. none;
  record_from_value = λ j. none;
}

abbrev audit_codec : AuditCodec
audit_codec = record {
  to_vec = λ e. some (codes "{}");
  sha256 = λ x. codes "x";
  to_string = λ e. some (codes "{}");
  from_str = λ s. none;
}

-- The upstream never answers.
abbrev outside : Outside
outside = record {
  libs = libs;
  crate = url_crate;
  codec = codec;
  proof_value = payload_value;
  body_value = body_value;
  audit = audit_codec;
  to_vec = λ j. some [];
  resolve = λ h p. some (v4 (record { a = 93; b = 184; c = 216; d = 34 }) ∷ []);
  header_name = λ k. some k;
  header_value = λ v. some v;
  to_str = λ v. some v;
  method = λ m. some m;
  client = true;
  send = λ s. none;
  uuid = λ n. codes "7";
  decimal = λ n. codes "0";
}

abbrev token_text : Text
token_text =
    token_prefix
    ++ (b'.' ∷ (toy.b64_encode (codes "{}") ++ (b'.' ∷ toy.b64_encode (toy.sign [] []))))

abbrev proof : AccessProof
proof = record {
  payload = record {
    version = codes "LRAP/0.3";
    agent_id = codes "agt_1";
    capability_hash = codes "sha256:" ++ toy.sha256 token_text;
    method = codes "GET";
    upstream = codes "https://api.example.com/v1/models";
    body_hash = codes "sha256:" ++ toy.sha256 [];
    nonce = codes "n";
    timestamp = of_nat 1000;
    task_id = none;
    purpose = none;
  };
  signature = toy.b64_encode (toy.sign [] []);
}

abbrev request : RelayRequest
request = record {
  capability = token_text;
  method = codes "get";
  upstream = codes "https://api.example.com/v1/models";
  headers = [];
  json_body = none;
  data_body = none;
  proof = some proof;
}

abbrev secret : SecretRecord
secret = record {
  value = codes "s";
  metadata = record {
    name = codes "API_KEY";
    kind = codes "generic";
    fingerprint = [];
    redacted_preview = [];
    created_at = of_nat 1000;
    updated_at = of_nat 1000;
    last_used_at = none;
    tags = [];
  };
}

abbrev data_sample : VaultData
data_sample = record {
  version = 2;
  created_at = of_nat 1000;
  keys = (codes "API_KEY", secret) ∷ [];
  signing_private_key = key_text;
  revoked_capabilities = [];
  revoked_agents = [];
  capability_usage = [];
  agents = [];
}

abbrev world : World Replay.Store Usage.Store
world = record {
  session = record {
    password = codes "pw";
    kdf = test_fast;
    data' = data_sample;
    file = none;
    docs = [];
  };
  replay = [];
  usage = [];
  file = none;
  sent = [];
}

abbrev log_disk : Audit.Disk
log_disk = record { prepared = true; readable = true; writable = true; left = none }

abbrev meets : Meets
meets = record {
  io = record { locked = true; salt = []; nonce = []; write = written };
  request_log = log_disk;
  response_log = log_disk;
}

perform_relay-Authorised_example :
    ((perform_relay outside
        (memory_replay (of_nat 1010))
        memory_usage
        (of_nat 1010)
        meets
        request
        world).1.sent
      ≡ [])
    ⊎ ((out : Sent) × ((perform_relay outside
            (memory_replay (of_nat 1010))
            memory_usage
            (of_nat 1010)
            meets
            request
            world).1.sent
          ≡ out ∷ [])
        × Authorised outside
            (memory_replay (of_nat 1010))
            memory_usage
            (of_nat 1010)
            meets
            request
            world
            out)
perform_relay-Authorised_example =
    perform_relay-Authorised outside (memory_replay (of_nat 1010)) memory_usage (of_nat 1010) meets
      request world (omega arith)

-- The same request ten seconds later, after a call for another proof.
abbrev other : Use
other = record { now = of_nat 1015; key = codes "k"; expires_at = of_nat 2000 }

abbrev later : World Replay.Store Usage.Store
later = record world {
  replay =
      Replay.run
        (perform_relay outside (memory_replay (of_nat 1010)) memory_usage (of_nat 1010) meets
          request world).1.replay
        (other ∷ []);
}

-- ===== src/Protocol/Proof/Tests.antt =====
-- Examples of access proofs.
use lockrail.Prelude.{◌≡◌, ◌↔◌, refl, none, some, arith, ok, ◌>>=◌}
use lockrail.Prelude.Int64.{of_nat}
use lockrail.Prelude.Text.{Text, codes}
use lockrail.Protocol.Agent.{AgentKeypairDoc, generate}
use lockrail.Protocol.Crypto.{canonical}
use lockrail.Protocol.Proof.{AccessProof, AccessProofPayload, sign, verify}
use lockrail.Protocol.Proof.Accepts.{Proves, proof_verify_iff}
use lockrail.Protocol.Proof.RoundTrip.{proof_verify-sign}
use lockrail.Protocol.Samples.{toy, toy-laws, payload_value}

abbrev proof : AccessProof
proof = record {
  payload = record {
    version = codes "LRAP/0.3";
    agent_id = codes "agt_1";
    capability_hash = codes "sha256:0";
    method = codes "GET";
    upstream = codes "https://api.example.com/v1/models";
    body_hash = codes "sha256:1";
    nonce = codes "n";
    timestamp = of_nat 1000;
    task_id = some (codes "t1");
    purpose = none;
  };
  signature = codes "sig";
}

proof_verify_iff_example :
    (verify toy payload_value
        (of_nat 1010)
        proof
        (codes "key")
        (codes "cap")
        (codes "get")
        proof.payload.upstream
        (codes "sha256:1")
        (some (codes "t1"))
        none
      ≡ ok tt)
    ↔ Proves toy payload_value
        (of_nat 1010)
        proof
        (codes "key")
        (codes "cap")
        (codes "get")
        proof.payload.upstream
        (codes "sha256:1")
        (some (codes "t1"))
        none
proof_verify_iff_example =
    proof_verify_iff toy payload_value (of_nat 1010) proof (codes "key") (codes "cap") (codes "get")
      proof.payload.upstream (codes "sha256:1") (some (codes "t1")) none

abbrev secret : Text
secret = codes "0123456789abcdef0123456789abcdef"

abbrev signer : AgentKeypairDoc
signer = generate toy secret (codes "1") (of_nat 900) (codes "bot") (codes "cli")

encoded : (p : AccessProofPayload) → canonical toy (payload_value p) ≡ ok (codes "{}")
unfolding canonical
encoded p = refl

proof_verify-sign_example :
    (sign toy payload_value
        (codes "n")
        (of_nat 1000)
        signer
        (codes "cap")
        (codes "get")
        (codes "u")
        (codes "h")
        (some (codes "t1"))
        none
      >>= λ made.
          verify toy payload_value
            (of_nat 1100)
            made
            signer.public_key
            (codes "cap")
            (codes "get")
            (codes "u")
            (codes "h")
            (some (codes "t1"))
            none)
    ≡ ok tt
proof_verify-sign_example =
    proof_verify-sign toy toy-laws payload_value secret (codes "1") (codes "bot") (codes "cli")
      (of_nat 900) (codes "n") (codes "cap") (codes "get") (codes "u") (codes "h")
      (some (codes "t1")) none (of_nat 1000) (of_nat 1100) (codes "{}") refl (omega arith)
      (omega arith) (omega arith) (omega arith, omega arith) (encoded proof.payload)

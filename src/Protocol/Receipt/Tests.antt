-- ===== src/Protocol/Receipt/Tests.antt =====
-- Examples of receipts.
use lockrail.Prelude.{◌≡◌, ◌↔◌, refl, none, some, ok}
use lockrail.Prelude.Int64.{of_nat}
use lockrail.Prelude.Text.{codes}
use lockrail.Protocol.Crypto.{canonical, b64e, sha256_hex}
use lockrail.Protocol.Receipt.{Receipt, hash_proof, body_of, new, verify}
use lockrail.Protocol.Receipt.Accepts.{Vouches, States, receipt_verify_iff, verify-new}
use lockrail.Protocol.Proof.{AccessProofPayload}
use lockrail.Protocol.Samples.{toy, toy-laws, payload_value, body_value}

abbrev receipt : Receipt
receipt = record {
  body =
      body_of toy payload_value body_value 7 none (codes "https://api.example.com") 200
        (of_nat 1000);
  receipt_hash = sha256_hex toy (codes "{}");
  signature = b64e toy (toy.sign (codes "signer") (codes "{}"));
}

receipt_verify_iff_example :
    (verify toy payload_value body_value receipt (codes "vk") ≡ ok tt)
    ↔ Vouches toy body_value receipt (codes "vk")
receipt_verify_iff_example = receipt_verify_iff toy payload_value body_value receipt (codes "vk")

abbrev payload : AccessProofPayload
payload = record {
  version = codes "LRAP/0.3";
  agent_id = codes "agt_1";
  capability_hash = codes "c";
  method = codes "GET";
  upstream = codes "https://api.example.com";
  body_hash = codes "b";
  nonce = codes "n";
  timestamp = of_nat 1000;
  task_id = none;
  purpose = none;
}

-- A request with a proof, answered with 404.
abbrev receipt_proven : Receipt
receipt_proven = record receipt {
  body =
      body_of toy payload_value body_value 7 (some (sha256_hex toy (codes "{}")))
        (codes "https://api.example.com") 404 (of_nat 1000);
}

made :
    new toy payload_value body_value
      (of_nat 1000)
      7
      (some payload)
      (codes "https://api.example.com")
      404
      (codes "signer")
    ≡ ok receipt_proven
unfolding new hash_proof canonical
made = refl

verify-new_example :
    States toy payload_value body_value 7
      (some payload)
      (codes "https://api.example.com")
      404
      (of_nat 1000)
      receipt_proven.body
    × (verify toy payload_value body_value receipt_proven (toy.verifying_key (codes "signer"))
        ≡ ok tt)
verify-new_example =
    verify-new toy payload_value body_value toy-laws (of_nat 1000) 7 (some payload)
      (codes "https://api.example.com") 404 (codes "signer") receipt_proven made

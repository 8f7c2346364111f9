-- ===== src/Vault/Steps/Tests.antt =====
-- A vault with an agent.
use lockrail.Prelude.{
  ◌≡◌, ◌≢◌, ◌↔◌, ◌⊎◌, inl, inr, refl, sym, true, false, Option, none, some, [], ◌∷◌, ◌++◌, ok, err,
  length, take, drop, take-length-append, drop-length-append, arith,
}
use lockrail.Prelude.Int64.{of_nat}
use lockrail.Prelude.Text.{Text, codes, text_eq, is_empty, to_ascii_lowercase}
use lockrail.Prelude.Text.Trim.{has_white}
use lockrail.Protocol.Agent.{AgentPublicDoc, AgentKeypairDoc, public_view}
use lockrail.Protocol.Json.{Json}
use lockrail.Protocol.Claims.{new}
use lockrail.Protocol.Crypto.{canonical, b64e}
use lockrail.Protocol.Token.{CapabilityToken, token_prefix, issue, verify}
use lockrail.Protocol.Token.Accepts.{ValidAt}
use lockrail.Protocol.Token.Issued.{verify-issue}
use lockrail.Protocol.Seal.Table.{scan_text}
use lockrail.Vault.Order.{in_order}
use lockrail.Vault.Names.{validate_name, secret_metadata}
use lockrail.Protocol.Samples.{toy, toy-laws, claims, claims_codec}
use lockrail.Vault.Agents.{
  save_agent, load_agent, revoke_agent, list_agents, listed, is_revoked, put_agent,
}
use lockrail.Vault.Document.{VaultEnvelope, AgentRecord, VaultData, test_fast}
use lockrail.Vault.Envelope.RoundTrip.{LibraryLaws, ReadsBack}
use lockrail.Vault.Error.{revoked, missing_credential}
use lockrail.Vault.Exec.{
  Session, written, unsynced, refused, gets, lift, modify, refuse, ◌>>=◌, write_file, write_result,
  write_public_agent_doc,
}
use lockrail.Vault.Libraries.{Libraries}
use lockrail.Vault.Save.{Io, save, open_vault, init}
use lockrail.Vault.Steps.{
  VaultCall, here, after, deleting, run, Reaches-WellFormed, empty-WellFormed,
}
use lockrail.Vault.Steps.Revoked.{revoke_agent_lasts, revoke_lasts}
use lockrail.Vault.Save.Atomic.{open_vault-save}
use lockrail.Vault.Envelope.{seal_data}
use lockrail.Vault.WellFormed.{WellFormed, put_agent-WellFormed}
use lockrail.Vault.Keys.{require, revoke, revoked_list, insert_id, upsert_key, put_secret}
use lockrail.Prelude.Map.{get, insert}
use lockrail.Vault.Steps.Agents.{list_agents_iff}
use lockrail.Vault.Steps.Saved.{load_agent-save_agent}

abbrev encode : VaultEnvelope → Text
encode e =
    e.version
    ∷ e.kdf.memory_kib
    ∷ e.kdf.iterations
    ∷ e.kdf.parallelism
    ∷ e.kdf.output_len
    ∷ length e.kdf.name
    ∷ length e.salt
    ∷ length e.nonce
    ∷ (e.kdf.name ++ (e.salt ++ (e.nonce ++ e.ciphertext)))

abbrev decode : Text → Option VaultEnvelope
decode (v ∷ m ∷ i ∷ p ∷ o ∷ k ∷ s ∷ n ∷ rest) = some (record {
  version = v;
  kdf = record {
    name = take k rest;
    memory_kib = m;
    iterations = i;
    parallelism = p;
    output_len = o;
  };
  salt = take s (drop k rest);
  nonce = take n (drop s (drop k rest));
  ciphertext = drop n (drop s (drop k rest));
})
decode t = none

decode-encode : (e : VaultEnvelope) → decode (encode e) ≡ some e
decode-encode e =
    rw
      (
        take-length-append e.kdf.name (e.salt ++ (e.nonce ++ e.ciphertext)),
        drop-length-append e.kdf.name (e.salt ++ (e.nonce ++ e.ciphertext)),
        take-length-append e.salt (e.nonce ++ e.ciphertext),
        drop-length-append e.salt (e.nonce ++ e.ciphertext),
        take-length-append e.nonce e.ciphertext,
        drop-length-append e.nonce e.ciphertext,
      )
      refl

abbrev agent_doc : AgentPublicDoc
agent_doc = record {
  version = 1;
  agent_id = codes "agt_1";
  name = codes "claude";
  kind = codes "claude-code";
  created_at = of_nat 1000;
  updated_at = of_nat 1000;
  public_key = codes "p";
  revoked = false;
}

abbrev agent_record : AgentRecord
agent_record = record { public = agent_doc; updated_at = of_nat 1000; revoked = false }

abbrev empty : VaultData
empty = record {
  version = 2;
  created_at = of_nat 1000;
  keys = [];
  signing_private_key = codes "s";
  revoked_capabilities = [];
  revoked_agents = [];
  capability_usage = [];
  agents = [];
}

abbrev data_sample : VaultData
data_sample = record empty { agents = (codes "agt_1", agent_record) ∷ [] }

-- A library whose data is always the sample.
abbrev libs : Libraries
libs = record {
  crypto = toy;
  entropy_at_least_3_6 = λ t. false;
  argon2 = λ p s k. some p;
  encrypt = λ k n a m. some m;
  decrypt = λ k n a c. some c;
  aad = λ v k s. some [];
  data_to_vec = λ d. some [];
  value_from_slice = λ t. some Json.null;
  data_from_value = λ j. some data_sample;
  envelope_to_vec_pretty = λ e. some (encode e);
  envelope_from_slice = decode;
  number_as_i64 = λ t. none;
  capabilities_from_value = λ j. none;
  usage_from_value = λ j. none;
  record_from_value = λ j. none;
}

some_inj : {a b : Text} → (let o : Option Text = some a in o) ≡ some b → a ≡ b
some_inj h = cc

laws : LibraryLaws libs
laws = record {
  base64 = toy-laws;
  decrypt-encrypt = λ k n a m h. sym h;
  envelope_from_slice-envelope_to_vec_pretty = λ e h. rw (← some_inj h) (decode-encode e);
}

reads : ReadsBack libs data_sample
reads = record { value = λ h. (Json.null, refl, refl) }

abbrev io : Io
io = record { locked = true; salt = codes "salt"; nonce = codes "twelve bytes"; write = unsynced }

abbrev safe : Io
safe = record io { write = written }

abbrev session : Session
session = record {
  password = codes "pw";
  kdf = test_fast;
  data' = data_sample;
  file = none;
  docs = [];
}

open_vault-save_example :
    ((save libs io session).1.file ≡ none)
    ⊎ (open_vault libs true (of_nat 1010) (codes "pw") (save libs io session).1.file []
        ≡ ok (save libs io session).1)
open_vault-save_example = open_vault-save libs io (of_nat 1010) session laws reads refl

saved : (t : Session) → (save libs safe t).0 ≡ ok tt
unfolding save gets lift ◌>>=◌ write_file write_result seal_data
saved t = refl

-- A vault in which the agent is revoked, and a secret deleted.
abbrev new_vault : Session
new_vault = (init libs (of_nat 1000) (codes "k") io (codes "pw") test_fast none []).1

abbrev deleting_key : VaultCall
deleting_key = deleting io (codes "api/key")

Reaches-WellFormed_example : WellFormed libs (run libs deleting_key new_vault).1.data'
Reaches-WellFormed_example =
    Reaches-WellFormed libs (of_nat 1000) (codes "k") io (codes "pw") test_fast none []
      (run libs deleting_key new_vault).1 (after deleting_key here)

abbrev without_agent : Session
without_agent = (revoke_agent libs safe written (codes "agt_1") session).1

revoke_agent_lasts_example :
    ((load_agent libs (of_nat 1010) io (codes "agt_1") (run libs deleting_key without_agent).1).0
      ≡ err (refused revoked))
    ⊎ ((load_agent libs (of_nat 1010) io (codes "agt_1") (run libs deleting_key without_agent).1).0
        ≡ err (refused missing_credential))
unfolding revoke_agent save gets lift modify refuse ◌>>=◌ write_file write_result
    write_public_agent_doc seal_data require get text_eq
revoke_agent_lasts_example =
    revoke_agent_lasts libs session (run libs deleting_key without_agent).1 safe io written
      (of_nat 1010) (codes "agt_1") refl (after deleting_key here)

abbrev issued : Text
issued =
    token_prefix
    ++ (b'.' ∷ (toy.b64_encode (codes "{}") ++ (b'.' ∷ toy.b64_encode (toy.sign [] []))))

abbrev accepted : CapabilityToken
accepted = record { claims = claims; signature = toy.b64_encode (toy.sign [] []) }

valid : ValidAt (of_nat 1010) (99 ∷ []) claims
unfolding new
valid = record {
  audience = refl;
  issued = omega arith;
  begun = omega arith;
  running = omega arith;
  in_force = refl;
  listed_nowhere = λ m. elim m [ inl e ↦ omega arith | inr n ↦ n ];
}

still_accepted :
    verify toy claims_codec
      (of_nat 1010)
      issued
      (toy.verifying_key [])
      (revoked_list (revoke libs io 99 session).1.data')
    ≡ ok accepted
unfolding issue canonical b64e revoked_list revoke insert_id ◌>>=◌ save modify gets lift seal_data
    write_file
still_accepted =
    verify-issue toy claims_codec toy-laws claims [] (codes "{}") (of_nat 1010) (99 ∷ []) refl refl
      (omega arith) valid

-- After capability 99 is revoked, a token that is still accepted is another.
revoke_lasts_example : claims.cap_id ≢ 99
revoke_lasts_example =
    revoke_lasts libs session (revoke libs io 99 session).1 claims_codec io 99 (of_nat 1010) issued
      (toy.verifying_key []) accepted (omega arith) here still_accepted

sample-WellFormed : WellFormed libs data_sample
unfolding put_agent insert
sample-WellFormed =
    put_agent-WellFormed libs (codes "agt_1") agent_record empty refl
      (empty-WellFormed libs empty refl refl)

list_agents_iff_example :
    (agent_doc.revoked ≡ true)
    ↔ ((load_agent libs (of_nat 1010) io (codes "agt_1") session).0 ≡ err (refused revoked))
unfolding list_agents listed in_order is_revoked
list_agents_iff_example =
    list_agents_iff libs session (of_nat 1010) io agent_doc sample-WellFormed (inl refl)

abbrev keypair : AgentKeypairDoc
keypair = record {
  version = 1;
  agent_id = codes "agt_2";
  name = codes "codex";
  kind = codes "codex";
  created_at = of_nat 1000;
  updated_at = of_nat 1000;
  public_key = codes "p";
  private_key = codes "k";
}

saved_agent : (save_agent libs (of_nat 1010) safe safe written keypair session).0 ≡ ok tt
unfolding save_agent upsert_key put_secret validate_name secret_metadata scan_text save gets lift
    modify ◌>>=◌ write_file write_result write_public_agent_doc seal_data is_empty has_white
    public_view to_ascii_lowercase
saved_agent = refl

load_agent-save_agent_example :
    (load_agent libs
      (of_nat 1020)
      safe
      (codes "agt_2")
      (save_agent libs (of_nat 1010) safe safe written keypair session).1).0
    ≡ ok keypair
unfolding is_revoked
load_agent-save_agent_example =
    load_agent-save_agent libs keypair (of_nat 1010) (of_nat 1020) safe safe safe written session
      refl saved_agent (λ r e. saved _)

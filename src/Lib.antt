-- ===== src/Lib.antt =====
-- Lockrail lets agents use credentials without seeing them. A capability token, signed by the vault's
-- issuer, says what a credential may be used for; an access proof, signed by the agent's key, binds a
-- token to one request; the relay checks both, counts uses, refuses replays, calls the service with
-- the secret, and returns a receipt; an audit log chains what happened; a scanner takes secrets out of
-- texts before they leave the machine.
--
-- The files and the code:
-- Prelude: names of the libraries, Boolean tests, lists, texts as lists of bytes with the string
-- operations of Rust's standard library (Text), 64-bit integers (Int64), maps (Map), results (Outcome).
-- Protocol: crates/lockrail-protocol/src. Of lib.rs: Error (ProtocolError), Json
-- (canonical_json_value), Crypto (canonical, b64e, b64d, sha256_hex, capability_hash, body_hash), Agent
-- (AgentKeypairDoc), Path (PathRule, wildcard_match), QueryPolicy, Claims (CapabilityClaims), Token
-- (CapabilityToken), Net (host_allowed, host_is_private, is_blocked_ip), Enforce (enforce_request,
-- enforce_content_type, enforce_body_size), Proof (AccessProof), Receipt. Of seal.rs: Seal
-- (normalize_findings, replace_with_handles), Seal/Scan and Seal/Assign (the scanners), Seal/Table
-- (scan_text, seal_text). Of presets.rs: Presets (PRESETS, preset, default_path_rules).
-- Vault: crates/lockrail-vault/src/lib.rs. Document (VaultData and its parts), Libraries (what it
-- calls outside), Exec (methods as functions of the session, which is the vault and its files), Names
-- (validate_name, redacted_preview, secret_metadata), Envelope (the text of a vault, legacy_to_v2),
-- Save (init, open, save), Keys and Agents (the other methods), Order (the order of a map), and for
-- proofs WellFormed and Steps (sequences of calls).
-- Audit: crates/lockrail-audit/src/lib.rs (AuditLog).
-- Relay: the replay and usage stores of crates/lockrail-relay/src/lib.rs, in memory and in files
-- (Replay, Usage), the guard on resolved addresses (Rebinding), scan_response_body (Response), and
-- perform_relay (Perform, with its parts in Request, Checks and Admit, on the state of World).
-- Cli: preset_claims of crates/lockrail-cli/src/main.rs (PresetClaims) and inject.rs (Inject).
--
-- perform_relay admits a request under the vault's lock (Admit uses Vault/Keys and Protocol/Token),
-- checks it (Checks uses Protocol/Enforce and Rebinding), and calls the stores through the records
-- ReplayStore and UsageStore, which the stores in memory fill, and the audit log. A method of the
-- vault keeps what it has changed when it fails, in memory and on the disk.
--
-- State is passed explicitly: a store is its map, a file is its text or its map, and an operation
-- returns its result and the state after it. The clock, fresh keys and UUIDs are arguments. The
-- failures of the operating system are a record of Booleans (Disk). A call of a store holds its lock
-- from start to end, so a history is a list of calls.
--
-- Texts are bytes in UTF-8, and positions count bytes. A value of type i64 is held as the number x +
-- 2^63 and wraps around, as the release build does. A panic of a slice is `none` or an error of its
-- own.
--
-- The loops of the scanners run on fuel, two turns more than the text has bytes: each turn starts
-- behind the one before and none behind the text's end, so the fuel does not run out. All other loops
-- recur on their data.
--
-- Parameters, with laws where a theorem needs them: ed25519-dalek, sha2, base64ct and serde_json
-- (Crypto, ClaimsCodec, AuditCodec), the url crate (UrlCrate), Argon2 and AES-GCM (Libraries), the
-- resolver, http and reqwest (Outside), and the comparison of the Shannon entropy, which is floating
-- point.
--
-- Not modelled: the handlers of axum around perform_relay, reading the public documents of agents from
-- their directory, the command line but for preset_claims and inject.rs, the proxy, and Debug texts. The clock is
-- read once in a call where the code reads it again.
pub mod Prelude
pub mod Protocol
pub mod Vault
pub mod Audit
pub mod Relay
pub mod Cli

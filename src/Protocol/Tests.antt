-- ===== src/Protocol/Tests.antt =====
-- Examples of the rules on paths, hosts, requests, bodies, addresses and times.
use lockrail.Prelude.{◌≡◌, ◌↔◌, ◌⊎◌, true, false, arith, ok, ltb}
use lockrail.Prelude.Int64.{of_nat}
use lockrail.Prelude.Text.{codes}
use lockrail.Protocol.Enforce.{enforce_request}
use lockrail.Protocol.Enforce.Permits.{Permits, enforce_request_iff}
use lockrail.Protocol.Net.{host_allowed, normalize, is_blocked_ip}
use lockrail.Protocol.Net.Addr.{Ipv4Addr, v4, v6, to_bits, to_ipv6_mapped}
use lockrail.Protocol.Net.Blocked.{IsInternal, is_blocked_v4_iff, mapped-not-blocked}
use lockrail.Protocol.Net.Hosts.{HostMatches, host_allowed_iff}
use lockrail.Protocol.Path.{PathRule, wildcard_rule, matches, wildcard_match}
use lockrail.Protocol.Path.Decide.{wildcard_match_iff}
use lockrail.Protocol.Path.Glob.{Glob}
use lockrail.Protocol.Path.Rules.{RuleMatches, matches_iff}
use lockrail.Protocol.Proof.{skew}
use lockrail.Protocol.Proof.Skew.{Near, HalfRange, skew_iff}
use lockrail.Protocol.Samples.{claims, url, url_crate}
use lockrail.Protocol.Token.{max_proof_skew_seconds}

wildcard_match_iff_example :
    (wildcard_match (codes "/v1/*/x") (codes "/v1/a/x") ≡ true)
    ↔ Glob (codes "/v1/*/x") (codes "/v1/a/x")
wildcard_match_iff_example = wildcard_match_iff (codes "/v1/*/x") (codes "/v1/a/x")

abbrev rule : PathRule
rule = wildcard_rule (codes "/v1/*")

matches_iff_example :
    (matches rule (codes "/v1/models") ≡ true)
    ↔ RuleMatches rule.policy rule.value (codes "/v1/models")
matches_iff_example = matches_iff rule (codes "/v1/models")

host_allowed_iff_example :
    (host_allowed (codes "*.Example.com") (codes "api.example.com.") ≡ true)
    ↔ HostMatches (normalize (codes "*.Example.com")) (normalize (codes "api.example.com."))
host_allowed_iff_example = host_allowed_iff (codes "*.Example.com") (codes "api.example.com.")

enforce_request_iff_example :
    (enforce_request url_crate claims (codes "get") url.as_str ≡ ok url)
    ↔ Permits url_crate claims (codes "get") url.as_str url
enforce_request_iff_example = enforce_request_iff url_crate claims (codes "get") url.as_str url

abbrev address : Ipv4Addr
address = record { a = 169; b = 254; c = 169; d = 254 }

is_blocked_v4_iff_example : (is_blocked_ip (v4 address) ≡ true) ↔ IsInternal (to_bits address)
is_blocked_v4_iff_example = is_blocked_v4_iff address (record {
  a_byte = omega arith;
  b_byte = omega arith;
  c_byte = omega arith;
  d_byte = omega arith;
})

mapped-not-blocked_example : is_blocked_ip (v6 (to_ipv6_mapped address)) ≡ false
mapped-not-blocked_example = mapped-not-blocked address

skew_iff_example :
    (ltb (of_nat max_proof_skew_seconds) (skew (of_nat 1000) (of_nat 950)) ≡ false)
    ↔ (Near (of_nat 1000) (of_nat 950) ⊎ HalfRange (of_nat 1000) (of_nat 950))
skew_iff_example = skew_iff (of_nat 1000) (of_nat 950) (omega arith) (omega arith) (omega arith)

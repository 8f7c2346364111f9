-- ===== src/Protocol/Net.antt =====
-- Hosts and addresses: `host_allowed`, `host_is_private` and `is_blocked_ip` of
-- crates/lockrail-protocol/src/lib.rs.
pub mod Addr
pub mod Blocked
pub mod Hosts
use lockrail.Prelude.{
  ℕ, Bool, true, false, not, ◌&&◌, ◌||◌, none, some, [], ◌∷◌, ◌==◌, if◌then◌else◌, drop,
}
use lockrail.Prelude.Text.{
  Text, codes, text_eq, ends_with, strip_prefix, trim_end_matches, to_ascii_lowercase,
}
use Addr.{IpAddr, v4, v6, Host, domain, ipv4, ipv6}
use Addr

abbrev pub dot : ℕ
dot = b'.'

-- Letter case and dots at the end do not count in a host's name.
pub normalize : Text → Text
normalize host = to_ascii_lowercase (trim_end_matches host dot)

-- The test behind the two `let`s of `host_allowed`, at the normalized names.
pub rule_allows : Text → Text → Bool
rule_allows rule host = elim (strip_prefix rule (codes "*.")) [
  | some stripped ↦ ends_with host (drop 1 rule) && not (text_eq host stripped)
  | none ↦ text_eq rule host
]

unfoldable pub host_allowed : Text → Text → Bool
unfolding normalize rule_allows
host_allowed rule host = rule_allows (normalize rule) (normalize host)

unfoldable pub is_blocked_ip : IpAddr → Bool
is_blocked_ip (v4 ip) =
    Addr.is_private ip
    || Addr.is_loopback ip
    || Addr.is_link_local ip
    || Addr.equals ip 0 0 0 0
    || Addr.equals ip 169 254 169 254
is_blocked_ip (v6 ip) =
    Addr.is_loopback_v6 ip
    || Addr.is_unspecified_v6 ip
    || Addr.is_unicast_link_local ip
    || Addr.is_unique_local ip
    || Addr.is_loopback_v6 ip

unfoldable pub host_is_private : Host → Bool
unfolding normalize is_blocked_ip
host_is_private (domain name) =
    let normalized = normalize name in
    text_eq normalized (codes "localhost")
    || ends_with normalized (codes ".local")
    || ends_with normalized (codes ".internal")
    || ends_with normalized (codes ".lan")
host_is_private (ipv4 ip) = is_blocked_ip (v4 ip)
host_is_private (ipv6 ip) = is_blocked_ip (v6 ip)

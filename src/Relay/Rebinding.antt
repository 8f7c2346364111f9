-- ===== src/Relay/Rebinding.antt =====
-- The guard of `perform_relay` in crates/lockrail-relay/src/lib.rs on the addresses that a host's
-- name resolves to. The resolver's answer is an argument.
mod Tests
use lockrail.Prelude.{
  ◌≡◌, ◌≢◌, ◌↔◌, refl, Bool, true, false, ◌||◌, List, [], ◌∷◌, arith, All, Bool-cases, inl, inr,
  if◌then◌else◌, Result, ok, err,
}
use lockrail.Protocol.Net.{is_blocked_ip}
use lockrail.Protocol.Net.Addr.{IpAddr, v4, v6}
use lockrail.Protocol.Net.Addr

pub data GuardError : Type 0 where
  no_addresses : GuardError
  rebinding_blocked : IpAddr → GuardError

-- `IpAddr::is_loopback` and `IpAddr::is_unspecified`
abbrev is_loopback_ip : IpAddr → Bool
is_loopback_ip (v4 ip) = Addr.is_loopback ip
is_loopback_ip (v6 ip) = Addr.is_loopback_v6 ip

abbrev is_unspecified_ip : IpAddr → Bool
is_unspecified_ip (v4 ip) = Addr.equals ip 0 0 0 0
is_unspecified_ip (v6 ip) = Addr.is_unspecified_v6 ip

-- The two `matches!` on the address.
abbrev is_private_v4 : IpAddr → Bool
is_private_v4 (v4 ip) =
    Addr.is_private ip || Addr.is_link_local ip || Addr.equals ip 169 254 169 254
is_private_v4 (v6 ip) = false

abbrev is_local_v6 : IpAddr → Bool
is_local_v6 (v4 ip) = false
is_local_v6 (v6 ip) = Addr.is_unique_local ip || Addr.is_unicast_link_local ip

unfoldable pub is_rebound : IpAddr → Bool
is_rebound ip = is_loopback_ip ip || is_unspecified_ip ip || is_private_v4 ip || is_local_v6 ip

guard_each : List IpAddr → Result GuardError (Unit {0})
guard_each [] = ok tt
guard_each (ip ∷ ips) =
    let rest = guard_each ips in if is_rebound ip then err (rebinding_blocked ip) else rest

unfoldable pub guard_addresses : List IpAddr → Result GuardError (Unit {0})
unfolding guard_each
guard_addresses [] = err no_addresses
guard_addresses (ip ∷ ips) = guard_each (ip ∷ ips)

is_rebound-eq : (ip : IpAddr) → is_rebound ip ≡ is_blocked_ip ip
unfolding is_rebound is_blocked_ip
is_rebound-eq (v4 ip) = ground arith
is_rebound-eq (v6 ip) = ground arith

guard_each_sound :
    (ips : List IpAddr) → guard_each ips ≡ ok tt → All (λ ip. is_blocked_ip ip ≡ false) ips
unfolding guard_each
guard_each_sound [] h = tt
guard_each_sound (ip ∷ ips) h =
    let same = is_rebound-eq ip in (ground arith, guard_each_sound ips (ground arith))

guard_each_complete :
    (ips : List IpAddr) → All (λ ip. is_blocked_ip ip ≡ false) ips → guard_each ips ≡ ok tt
unfolding guard_each
guard_each_complete [] a = refl
guard_each_complete (ip ∷ ips) (b, a) =
    let same = is_rebound-eq ip in let rest = guard_each_complete ips a in ground arith

-- The guard on the addresses that a name resolves to passes exactly if there are some and
-- `is_blocked_ip` blocks none of them.
pub guard_addresses_iff :
    (ips : List IpAddr)
    → (guard_addresses ips ≡ ok tt) ↔ ((ips ≢ []) × All (λ ip. is_blocked_ip ip ≡ false) ips)
unfolding guard_addresses
guard_addresses_iff [] = (λ h. cc, λ (n, a). absurd (n refl))
guard_addresses_iff (ip ∷ ips) =
    (λ h. (λ e. cc, guard_each_sound (ip ∷ ips) h), λ (n, a). guard_each_complete (ip ∷ ips) a)

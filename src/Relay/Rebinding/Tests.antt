-- ===== src/Relay/Rebinding/Tests.antt =====
-- Examples of the guard on resolved addresses.
use lockrail.Prelude.{◌≡◌, ◌≢◌, ◌↔◌, false, List, [], ◌∷◌, All, ok}
use lockrail.Protocol.Net.{is_blocked_ip}
use lockrail.Protocol.Net.Addr.{IpAddr, v4}
use lockrail.Relay.Rebinding.{guard_addresses, guard_addresses_iff}

abbrev resolved : List IpAddr
resolved =
    v4 (record { a = 93; b = 184; c = 216; d = 34 })
    ∷ v4 (record { a = 10; b = 0; c = 0; d = 1 })
    ∷ []

guard_addresses_iff_example :
    (guard_addresses resolved ≡ ok tt)
    ↔ ((resolved ≢ []) × All (λ ip. is_blocked_ip ip ≡ false) resolved)
guard_addresses_iff_example = guard_addresses_iff resolved

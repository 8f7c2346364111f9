-- ===== src/Protocol/Net/Blocked.antt =====
-- Which addresses `is_blocked_ip` blocks, by their blocks in CIDR notation.
use lockrail.Prelude.{ℕ, ◌+◌, ◌*◌, ◌/◌, ◌^◌, ◌-◌, ◌≡◌, ◌↔◌, ◌⊎◌, inl, inr, ◌≤◌, true, false, arith}
use lockrail.Protocol.Net.Addr.{Ipv4Addr, v4, v6, IsV4, to_bits, to_ipv6_mapped}
use lockrail.Protocol.Net.{is_blocked_ip}

-- The address lies in the block of `a.b.0.0/len`.
abbrev InBlock : ℕ → ℕ → ℕ → ℕ → Type 0
InBlock a b len bits = bits / 2 ^ (32 - len) ≡ (a * 2 ^ 24 + b * 2 ^ 16) / 2 ^ (32 - len)

-- The private ranges of RFC 1918, the loopback and link-local ranges, and 0.0.0.0.
abbrev pub IsInternal : ℕ → Type 0
IsInternal bits =
    InBlock 10 0 8 bits
    ⊎ InBlock 172 16 12 bits
    ⊎ InBlock 192 168 16 bits
    ⊎ InBlock 127 0 8 bits
    ⊎ InBlock 169 254 16 bits
    ⊎ (bits ≡ 0)

module _ (ip : Ipv4Addr) (h : IsV4 ip) where
  abbrev bits : ℕ
  bits = to_bits ip

  in_10 : InBlock 10 0 8 bits ↔ (ip.a ≡ 10)
  in_10 = (λ b. omega arith, λ b. omega arith)

  in_127 : InBlock 127 0 8 bits ↔ (ip.a ≡ 127)
  in_127 = (λ b. omega arith, λ b. omega arith)

  in_172 : InBlock 172 16 12 bits ↔ ((ip.a ≡ 172) × (16 ≤ ip.b) × (ip.b ≤ 31))
  in_172 = (λ b. omega arith, λ b. omega arith)

  in_192 : InBlock 192 168 16 bits ↔ ((ip.a ≡ 192) × (ip.b ≡ 168))
  in_192 = (λ b. omega arith, λ b. omega arith)

  in_169 : InBlock 169 254 16 bits ↔ ((ip.a ≡ 169) × (ip.b ≡ 254))
  in_169 = (λ b. omega arith, λ b. omega arith)

  unspecified : (bits ≡ 0) ↔ ((ip.a ≡ 0) × (ip.b ≡ 0) × (ip.c ≡ 0) × (ip.d ≡ 0))
  unspecified = (λ b. omega arith, λ b. omega arith)

  -- The tests, as a sum of what each one asks of the octets.
  octets : (is_blocked_ip (v4 ip) ≡ true) ↔ (
      (ip.a ≡ 10)
      ⊎ ((ip.a ≡ 172) × (16 ≤ ip.b) × (ip.b ≤ 31))
      ⊎ ((ip.a ≡ 192) × (ip.b ≡ 168))
      ⊎ (ip.a ≡ 127)
      ⊎ ((ip.a ≡ 169) × (ip.b ≡ 254))
      ⊎ ((ip.a ≡ 0) × (ip.b ≡ 0) × (ip.c ≡ 0) × (ip.d ≡ 0)))
  unfolding is_blocked_ip
  octets = (λ b. ground arith, λ b. ground arith)

-- The IPv4 addresses that are blocked are exactly those of the internal ranges.
pub is_blocked_v4_iff :
    (ip : Ipv4Addr) → IsV4 ip → (is_blocked_ip (v4 ip) ≡ true) ↔ IsInternal (to_bits ip)
is_blocked_v4_iff ip h = (
  λ b. elim ((octets ip h).0 b) [
    | inl e ↦ inl ((in_10 ip h).1 e)
    | inr (inl e) ↦ inr (inl ((in_172 ip h).1 e))
    | inr (inr (inl e)) ↦ inr (inr (inl ((in_192 ip h).1 e)))
    | inr (inr (inr (inl e))) ↦ inr (inr (inr (inl ((in_127 ip h).1 e))))
    | inr (inr (inr (inr (inl e)))) ↦ inr (inr (inr (inr (inl ((in_169 ip h).1 e)))))
    | inr (inr (inr (inr (inr e)))) ↦ inr (inr (inr (inr (inr ((unspecified ip h).1 e)))))
  ],
  λ b. (octets ip h).1 (elim b [
    | inl e ↦ inl ((in_10 ip h).0 e)
    | inr (inl e) ↦ inr (inl ((in_172 ip h).0 e))
    | inr (inr (inl e)) ↦ inr (inr (inl ((in_192 ip h).0 e)))
    | inr (inr (inr (inl e))) ↦ inr (inr (inr (inl ((in_127 ip h).0 e))))
    | inr (inr (inr (inr (inl e)))) ↦ inr (inr (inr (inr (inl ((in_169 ip h).0 e)))))
    | inr (inr (inr (inr (inr e)))) ↦ inr (inr (inr (inr (inr ((unspecified ip h).0 e)))))
  ]),
)

-- An IPv4 address in its IPv6 form is never blocked, whatever the IPv4 address.
pub mapped-not-blocked : (ip : Ipv4Addr) → is_blocked_ip (v6 (to_ipv6_mapped ip)) ≡ false
unfolding is_blocked_ip
mapped-not-blocked ip = ground arith

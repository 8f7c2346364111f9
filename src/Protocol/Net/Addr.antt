-- ===== src/Protocol/Net/Addr.antt =====
-- The address types of `std::net` and `url`, and the predicates of `std::net` that the program
-- calls, as the standard library defines them.
use lockrail.Prelude.{ℕ, ◌+◌, ◌*◌, ◌^◌, ◌<◌, Bool, ◌&&◌, ◌||◌, leb, ◌==◌}
use lockrail.Prelude.Text.{Text}

-- Four octets, and eight segments of sixteen bits.
pub record Ipv4Addr : Type 0 where
  pub a : ℕ
  pub b : ℕ
  pub c : ℕ
  pub d : ℕ

pub record Ipv6Addr : Type 0 where
  pub s0 : ℕ
  pub s1 : ℕ
  pub s2 : ℕ
  pub s3 : ℕ
  pub s4 : ℕ
  pub s5 : ℕ
  pub s6 : ℕ
  pub s7 : ℕ

pub data IpAddr : Type 0 where
  v4 : Ipv4Addr → IpAddr
  v6 : Ipv6Addr → IpAddr

-- `url::Host<&str>`
pub data Host : Type 0 where
  domain : Text → Host
  ipv4 : Ipv4Addr → Host
  ipv6 : Ipv6Addr → Host

abbrev pub is_private : Ipv4Addr → Bool
is_private ip =
    ip.a == 10 || (ip.a == 172 && (leb 16 ip.b && leb ip.b 31)) || (ip.a == 192 && ip.b == 168)

abbrev pub is_loopback : Ipv4Addr → Bool
is_loopback ip = ip.a == 127

abbrev pub is_link_local : Ipv4Addr → Bool
is_link_local ip = ip.a == 169 && ip.b == 254

-- `*ip == Ipv4Addr::new(a, b, c, d)`
abbrev pub equals : Ipv4Addr → ℕ → ℕ → ℕ → ℕ → Bool
equals ip a b c d = ip.a == a && (ip.b == b && (ip.c == c && ip.d == d))

-- `*ip == Ipv6Addr::new(0, 0, 0, 0, 0, 0, 0, last)`
abbrev pub equals_low : Ipv6Addr → ℕ → Bool
equals_low ip last =
    ip.s0 == 0
    && (ip.s1 == 0
        && (ip.s2 == 0
            && (ip.s3 == 0 && (ip.s4 == 0 && (ip.s5 == 0 && (ip.s6 == 0 && ip.s7 == last))))))

abbrev pub is_loopback_v6 : Ipv6Addr → Bool
is_loopback_v6 ip = equals_low ip 1

abbrev pub is_unspecified_v6 : Ipv6Addr → Bool
is_unspecified_v6 ip = equals_low ip 0

-- `segments()[0] & 0xffc0 == 0xfe80`, on a segment of sixteen bits
abbrev pub is_unicast_link_local : Ipv6Addr → Bool
is_unicast_link_local ip = leb 0xfe80 ip.s0 && leb ip.s0 0xfebf

-- `segments()[0] & 0xfe00 == 0xfc00`
abbrev pub is_unique_local : Ipv6Addr → Bool
is_unique_local ip = leb 0xfc00 ip.s0 && leb ip.s0 0xfdff

-- The octets of an IPv4 address are bytes, and stand for a number of 32 bits.
pub record IsV4 (ip : Ipv4Addr) : Type 0 where
  pub a_byte : ip.a < 256
  pub b_byte : ip.b < 256
  pub c_byte : ip.c < 256
  pub d_byte : ip.d < 256

abbrev pub to_bits : Ipv4Addr → ℕ
to_bits ip = ip.a * 2 ^ 24 + ip.b * 2 ^ 16 + ip.c * 2 ^ 8 + ip.d

-- `Ipv4Addr::to_ipv6_mapped`: ::ffff:a.b.c.d
abbrev pub to_ipv6_mapped : Ipv4Addr → Ipv6Addr
to_ipv6_mapped ip = record {
  s0 = 0;
  s1 = 0;
  s2 = 0;
  s3 = 0;
  s4 = 0;
  s5 = 0xffff;
  s6 = ip.a * 256 + ip.b;
  s7 = ip.c * 256 + ip.d;
}

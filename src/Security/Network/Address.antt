-- ===== src/Security/Network/Address.antt =====
-- crates/brolga-security/src/network.rs: the category of an address, over the standard library's
-- documented tests on addresses. Octets are below 256 and segments below 65536.
use brolga.Prelude.{
  ℕ, ◌*◌, ◌/◌, ◌%◌, ◌^◌, ◌<◌, Bool, true, false, ◌&&◌, ◌||◌, Option, none, some, leb, ltb, ◌==◌,
  if◌then◌else◌,
}

pub record Ipv4Addr : Type 0 where
  pub a : ℕ
  pub b : ℕ
  pub c : ℕ
  pub d : ℕ

pub record Ipv6Addr : Type 0 where
  pub s0 : ℕ
  pub s1 : ℕ
  pub s2 : ℕ
  pub s3 : ℕ
  pub s4 : ℕ
  pub s5 : ℕ
  pub s6 : ℕ
  pub s7 : ℕ

pub data IpAddr : Type 0 where
  v4 : Ipv4Addr → IpAddr
  v6 : Ipv6Addr → IpAddr

pub data AddressCategory : Type 0 where
  public loopback private link_local cloud_metadata multicast unspecified reserved : AddressCategory

-- The four octets are bytes.
pub record IsOctets (x : Ipv4Addr) : Type 0 where
  pub a_byte : x.a < 256
  pub b_byte : x.b < 256
  pub c_byte : x.c < 256
  pub d_byte : x.d < 256

abbrev octets_eq : Ipv4Addr → ℕ → ℕ → ℕ → ℕ → Bool
octets_eq x a b c d = x.a == a && x.b == b && x.c == c && x.d == d

-- `Ipv4Addr::is_private`: 10/8, 172.16/12 and 192.168/16.
abbrev is_private : Ipv4Addr → Bool
is_private x = x.a == 10 || x.a == 172 && leb 16 x.b && leb x.b 31 || x.a == 192 && x.b == 168

-- `Ipv4Addr::is_documentation`: 192.0.2/24, 198.51.100/24 and 203.0.113/24.
abbrev is_documentation : Ipv4Addr → Bool
is_documentation x =
    x.a == 192 && x.b == 0 && x.c == 2
    || x.a == 198 && x.b == 51 && x.c == 100
    || x.a == 203 && x.b == 0 && x.c == 113

unfoldable pub of_v4 : Ipv4Addr → AddressCategory
of_v4 x =
    if octets_eq x 169 254 169 254
    then cloud_metadata
    else if x.a == 127
    then loopback
    else if is_private x
    then private
    else if x.a == 169 && x.b == 254
    then link_local
    else if leb 224 x.a && leb x.a 239
    then multicast
    else if octets_eq x 0 0 0 0
    then unspecified
    else if octets_eq x 255 255 255 255 || is_documentation x
    then reserved
    else if x.a == 100 && (leb 64 x.b && ltb x.b 128)
    then private
    else if x.a == 0 || leb 240 x.a
    then reserved
    else public

-- `Ipv6Addr::to_ipv4_mapped`: `::ffff:a.b.c.d`.
unfoldable pub to_ipv4_mapped : Ipv6Addr → Option Ipv4Addr
to_ipv4_mapped x =
    if x.s0 == 0 && x.s1 == 0 && x.s2 == 0 && x.s3 == 0 && x.s4 == 0 && x.s5 == 0xffff
    then some (record { a = x.s6 / 256; b = x.s6 % 256; c = x.s7 / 256; d = x.s7 % 256 })
    else none

-- `x & mask` for a 16-bit mask that clears the low `k` bits.
abbrev high_bits : ℕ → ℕ → ℕ
high_bits x k = x / 2 ^ k * 2 ^ k

abbrev zero_but_last : Ipv6Addr → Bool
zero_but_last x =
    x.s0 == 0 && x.s1 == 0 && x.s2 == 0 && x.s3 == 0 && x.s4 == 0 && x.s5 == 0 && x.s6 == 0

of_v6_native : Ipv6Addr → AddressCategory
of_v6_native x =
    if zero_but_last x && x.s7 == 1
    then loopback
    else if zero_but_last x && x.s7 == 0
    then unspecified
    else if high_bits x.s0 8 == 0xff00
    then multicast
    else if high_bits x.s0 6 == 0xfe80
    then link_local
    else if high_bits x.s0 9 == 0xfc00
    then private
    else if x.s0 == 0x2001 && x.s1 == 0x0db8
    then reserved
    else public

unfoldable pub of_v6 : Ipv6Addr → AddressCategory
unfolding of_v6_native
of_v6 x = elim (to_ipv4_mapped x) [ some y ↦ of_v4 y | none ↦ of_v6_native x ]

-- `AddressCategory::of`
unfoldable pub of : IpAddr → AddressCategory
of (v4 x) = of_v4 x
of (v6 x) = of_v6 x

unfoldable pub is_public : AddressCategory → Bool
is_public public = true
is_public _ = false

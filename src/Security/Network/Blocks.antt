-- ===== src/Security/Network/Blocks.antt =====
-- The address policy of crates/brolga-security/src/network.rs against a list of CIDR blocks.
use brolga.Prelude.{
  ℕ, ◌+◌, ◌*◌, ◌-◌, ◌^◌, ◌≤◌, ◌≡◌, ◌≢◌, refl, ◌↔◌, ◌⊎◌, List, [], ◌∷◌, All, some, true, arith,
}
use brolga.Security.Network.Address.{
  Ipv4Addr, Ipv6Addr, IpAddr, v4, v6, IsOctets, public, private, loopback, link_local,
  cloud_metadata, of, of_v4, of_v6, to_ipv4_mapped,
}
use brolga.Security.Network.{NetworkPolicy, allowed, strict, internal_network, permits_address}

-- An address as the 32-bit number that its octets spell.
abbrev pub to_bits : Ipv4Addr → ℕ
to_bits x = x.a * 2 ^ 24 + x.b * 2 ^ 16 + x.c * 2 ^ 8 + x.d

-- A block by its first and its last address.
pub record Block : Type 0 where
  pub first : ℕ
  pub last : ℕ

abbrev cidr : ℕ → ℕ → ℕ → ℕ → ℕ → Block
cidr a b c d len = record { first = base; last = base + 2 ^ (32 - len) - 1 }
  where
    base : ℕ
    base = to_bits (record { a = a; b = b; c = c; d = d })

abbrev pub Outside : ℕ → Block → Type 0
Outside n k = ¬ ((k.first ≤ n) × (n ≤ k.last))

-- The blocks that are not publicly routable.
abbrev pub special_blocks : List Block
special_blocks =
    cidr 0 0 0 0 8
    ∷ cidr 10 0 0 0 8
    ∷ cidr 100 64 0 0 10
    ∷ cidr 127 0 0 0 8
    ∷ cidr 169 254 0 0 16
    ∷ cidr 172 16 0 0 12
    ∷ cidr 192 0 2 0 24
    ∷ cidr 192 168 0 0 16
    ∷ cidr 198 51 100 0 24
    ∷ cidr 203 0 113 0 24
    ∷ cidr 224 0 0 0 4
    ∷ cidr 240 0 0 0 4
    ∷ []

-- The same blocks, octet by octet.
record PublicOctets (x : Ipv4Addr) : Type 0 where
  not_zero : x.a ≢ 0
  not_ten : x.a ≢ 10
  not_shared : ¬ ((x.a ≡ 100) × (64 ≤ x.b) × (x.b ≤ 127))
  not_loopback : x.a ≢ 127
  not_link_local : ¬ ((x.a ≡ 169) × (x.b ≡ 254))
  not_private : ¬ ((x.a ≡ 172) × (16 ≤ x.b) × (x.b ≤ 31))
  not_documentation₁ : ¬ ((x.a ≡ 192) × (x.b ≡ 0) × (x.c ≡ 2))
  not_private_home : ¬ ((x.a ≡ 192) × (x.b ≡ 168))
  not_documentation₂ : ¬ ((x.a ≡ 198) × (x.b ≡ 51) × (x.c ≡ 100))
  not_documentation₃ : ¬ ((x.a ≡ 203) × (x.b ≡ 0) × (x.c ≡ 113))
  not_multicast : ¬ ((224 ≤ x.a) × (x.a ≤ 239))
  not_high : ¬ (240 ≤ x.a)

public-PublicOctets : (x : Ipv4Addr) → of_v4 x ≡ public → PublicOctets x
unfolding of_v4
public-PublicOctets x p = ground arith

PublicOctets-public : (x : Ipv4Addr) → PublicOctets x → of_v4 x ≡ public
unfolding of_v4
PublicOctets-public x p = ground arith

PublicOctets-Outside :
    (x : Ipv4Addr) → IsOctets x → PublicOctets x → All (Outside (to_bits x)) special_blocks
PublicOctets-Outside x h p = omega arith

Outside-PublicOctets :
    (x : Ipv4Addr) → IsOctets x → All (Outside (to_bits x)) special_blocks → PublicOctets x
Outside-PublicOctets x h p = record {
  not_zero = λ e. p.0 (omega arith, omega arith);
  not_ten = λ e. p.1.0 (omega arith, omega arith);
  not_shared = λ e. p.1.1.0 (omega arith, omega arith);
  not_loopback = λ e. p.1.1.1.0 (omega arith, omega arith);
  not_link_local = λ e. p.1.1.1.1.0 (omega arith, omega arith);
  not_private = λ e. p.1.1.1.1.1.0 (omega arith, omega arith);
  not_documentation₁ = λ e. p.1.1.1.1.1.1.0 (omega arith, omega arith);
  not_private_home = λ e. p.1.1.1.1.1.1.1.0 (omega arith, omega arith);
  not_documentation₂ = λ e. p.1.1.1.1.1.1.1.1.0 (omega arith, omega arith);
  not_documentation₃ = λ e. p.1.1.1.1.1.1.1.1.1.0 (omega arith, omega arith);
  not_multicast = λ e. p.1.1.1.1.1.1.1.1.1.1.0 (omega arith, omega arith);
  not_high = λ e. p.1.1.1.1.1.1.1.1.1.1.1.0 (omega arith, omega arith);
}

of_v4-public :
    (x : Ipv4Addr) → IsOctets x → (of_v4 x ≡ public) ↔ All (Outside (to_bits x)) special_blocks
of_v4-public x h = (
  λ e. PublicOctets-Outside x h (public-PublicOctets x e),
  λ o. PublicOctets-public x (Outside-PublicOctets x h o),
)

strict_allows-public : (p : IpAddr) → (permits_address strict p ≡ allowed) ↔ (of p ≡ public)
unfolding permits_address strict
strict_allows-public p = (λ h. ground arith, λ h. ground arith)

-- For any IPv4 address with octets that are bytes, the strict policy permits it exactly when, as a 32-bit
-- number, it lies outside each of the twelve CIDR blocks that are not publicly routable.
pub strict_permits_v4 :
    (x : Ipv4Addr)
    → IsOctets x
    → (permits_address strict (v4 x) ≡ allowed) ↔ All (Outside (to_bits x)) special_blocks
unfolding of
strict_permits_v4 x h =
    let (to, from) = strict_allows-public (v4 x) in
    let (out, back) = of_v4-public x h in (λ e. out (to e), λ o. from (back o))

-- The IPv4-mapped IPv6 form of an address.
pub mapped : Ipv4Addr → Ipv6Addr
mapped x = record {
  s0 = 0;
  s1 = 0;
  s2 = 0;
  s3 = 0;
  s4 = 0;
  s5 = 0xffff;
  s6 = x.a * 256 + x.b;
  s7 = x.c * 256 + x.d;
}

to_ipv4_mapped-mapped : (x : Ipv4Addr) → IsOctets x → to_ipv4_mapped (mapped x) ≡ some x
unfolding to_ipv4_mapped mapped
to_ipv4_mapped-mapped x h = ground arith

-- An IPv4 address with octets that are bytes and its IPv4-mapped IPv6 form are of one category, so
-- every policy permits both or neither.
pub mapped_same :
    (x : Ipv4Addr) (p : NetworkPolicy)
    → IsOctets x
    → (of (v6 (mapped x)) ≡ of (v4 x))
      × ((permits_address p (v6 (mapped x)) ≡ allowed) ↔ (permits_address p (v4 x) ≡ allowed))
unfolding of of_v6 permits_address
mapped_same x p h =
    let e : of (v6 (mapped x)) ≡ of (v4 x) = rw (to_ipv4_mapped-mapped x h, of_v6) refl in
    (e, (λ q. ground arith, λ q. ground arith))

-- Whatever a policy allows, it permits no multicast, unspecified or reserved address; it permits a
-- cloud metadata address only if it says so, and a loopback, private or link-local one only if it
-- allows private addresses.
permits_address_iff :
    (p : NetworkPolicy) (x : IpAddr)
    → (permits_address p x ≡ allowed) ↔ (
        (of x ≡ public)
        ⊎ ((of x ≡ cloud_metadata) × (p.allow_cloud_metadata ≡ true))
        ⊎ (((of x ≡ loopback) ⊎ (of x ≡ private) ⊎ (of x ≡ link_local))
            × (p.allow_private_addresses ≡ true)))
unfolding permits_address
permits_address_iff p x = (λ q. ground arith, λ q. ground arith)

-- The policy for internal networks permits private addresses and still no cloud metadata endpoint.
pub internal_network_metadata :
    (x : IpAddr) → of x ≡ cloud_metadata → permits_address internal_network x ≢ allowed
unfolding permits_address internal_network
internal_network_metadata x h = λ q. ground arith

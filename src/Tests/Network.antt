-- ===== src/Tests/Network.antt =====
-- Runs of crates/brolga-security/src/network.rs.
use brolga.Prelude.{◌≡◌, refl, ◌↔◌, All, arith}
use brolga.Security.Network.Address.{Ipv4Addr, v4, private, of, of_v4}
use brolga.Security.Network.{allowed, strict, permits_address}
use brolga.Security.Network.Blocks.{Outside, to_bits, special_blocks, strict_permits_v4}

-- An address in 172.16/12.
abbrev office : Ipv4Addr
office = record { a = 172; b = 31; c = 4; d = 9 }

office-private : of (v4 office) ≡ private
unfolding of of_v4
office-private = refl

strict_permits_v4_example :
    (permits_address strict (v4 office) ≡ allowed) ↔ All (Outside (to_bits office)) special_blocks
strict_permits_v4_example = strict_permits_v4 office (omega arith)

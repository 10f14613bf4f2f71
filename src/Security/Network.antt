-- ===== src/Security/Network.antt =====
-- crates/brolga-security/src/network.rs: the outbound network policy.
pub mod Address
pub mod Blocks
pub mod Redirects
use brolga.Prelude.{
  ℕ, Bool, true, false, ◌&&◌, ◌||◌, not, leb, if◌then◌else◌, Text, codes, text_eq,
  to_ascii_lowercase,
}
use Address.{
  IpAddr, AddressCategory, public, loopback, private, link_local, cloud_metadata, multicast,
  unspecified, reserved, of,
}

pub data NetworkDenied : Type 0 where
  scheme : Text → NetworkDenied
  address : IpAddr → AddressCategory → NetworkDenied
  plaintext_forbidden : NetworkDenied
  too_many_redirects : ℕ → NetworkDenied
  redirect_scheme_change : Text → Text → NetworkDenied

-- `Result<(), NetworkDenied>`
pub data Verdict : Type 0 where
  allowed : Verdict
  denied : NetworkDenied → Verdict

pub record NetworkPolicy : Type 0 where
  pub allow_plaintext_http : Bool
  pub allow_private_addresses : Bool
  pub allow_cloud_metadata : Bool
  pub max_redirects : ℕ
  pub allow_redirect_downgrade : Bool

unfoldable pub strict : NetworkPolicy
strict = record {
  allow_plaintext_http = false;
  allow_private_addresses = false;
  allow_cloud_metadata = false;
  max_redirects = 3;
  allow_redirect_downgrade = false;
}

unfoldable pub internal_network : NetworkPolicy
unfolding strict
internal_network = record strict {
  allow_plaintext_http = false;
  allow_private_addresses = true;
  allow_cloud_metadata = false;
}

abbrev pub https : Text
https = codes "https"

abbrev pub http : Text
http = codes "http"

-- `permits_scheme` once the scheme is in lower case.
permits_lowered : NetworkPolicy → Text → Verdict
permits_lowered p s =
    if not (text_eq s https || text_eq s http)
    then denied (scheme s)
    else if text_eq s http && not p.allow_plaintext_http
    then denied plaintext_forbidden
    else allowed

unfoldable pub permits_scheme : NetworkPolicy → Text → Verdict
unfolding permits_lowered
permits_scheme p s = permits_lowered p (to_ascii_lowercase s)

abbrev permitted : NetworkPolicy → AddressCategory → Bool
permitted p public = true
permitted p cloud_metadata = p.allow_cloud_metadata
permitted p loopback = p.allow_private_addresses
permitted p private = p.allow_private_addresses
permitted p link_local = p.allow_private_addresses
permitted p multicast = false
permitted p unspecified = false
permitted p reserved = false

unfoldable pub permits_address : NetworkPolicy → IpAddr → Verdict
permits_address p x = if permitted p (of x) then allowed else denied (address x (of x))

unfoldable pub permits_redirect : NetworkPolicy → ℕ → Text → Text → Verdict
permits_redirect p redirects_so_far from_scheme to_scheme =
    let from = to_ascii_lowercase from_scheme in
    let to = to_ascii_lowercase to_scheme in
    if leb p.max_redirects redirects_so_far
    then denied (too_many_redirects p.max_redirects)
    else if text_eq from https && text_eq to http && not p.allow_redirect_downgrade
    then denied (redirect_scheme_change from to)
    else permits_scheme p to

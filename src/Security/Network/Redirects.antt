-- ===== src/Security/Network/Redirects.antt =====
-- Which schemes and redirects the policy of crates/brolga-security/src/network.rs lets through.
use brolga.Prelude.{
  ℕ, ◌<◌, ◌≡◌, ◌↔◌, ◌⊎◌, true, arith, Text, text_eq_iff, to_ascii_lowercase,
  to_ascii_lowercase_twice,
}
use brolga.Security.Network.{NetworkPolicy, allowed, https, http, permits_scheme, permits_redirect}

-- `permits_redirect` lets a redirect through exactly when the limit is not yet reached, the target
-- is `https`, or is `http` with plaintext allowed and, coming from `https`, downgrades allowed.
-- Schemes are compared in lower case.
permits_redirect_iff :
    (p : NetworkPolicy) (n : ℕ) (from to : Text)
    → let f = to_ascii_lowercase from in
      let t = to_ascii_lowercase to in
      (permits_redirect p n from to ≡ allowed) ↔ (
        (n < p.max_redirects)
        × ((t ≡ https)
            ⊎ ((t ≡ http)
                × (p.allow_plaintext_http ≡ true)
                × ((f ≡ https) → p.allow_redirect_downgrade ≡ true))))
unfolding permits_redirect permits_scheme
permits_redirect_iff p n from to =
    let f = to_ascii_lowercase from in
    let t = to_ascii_lowercase to in
    rw (to_ascii_lowercase_twice to) (
      λ q. ground (arith, text_eq_iff f https, text_eq_iff t http, text_eq_iff t https),
      λ q. ground (arith, text_eq_iff f https, text_eq_iff t http, text_eq_iff t https),
    )

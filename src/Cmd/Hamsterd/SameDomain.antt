-- ===== src/Cmd/Hamsterd/SameDomain.antt =====
-- The two handlers of cmd/hamsterd/main.go agree.
use hamsterd.Common.{◌≡◌, ◌↔◌, refl, ap, List, [], ◌∷◌, Text, any, arith}
use hamsterd.Config.Target.{equal_fold}
use hamsterd.Common.Net.{join_host_port}
use hamsterd.Common.Strings.{trim_last}
use hamsterd.Common.Net.Plain.{IsPlain, split_host_port-none, split_host_port-join}
use hamsterd.Cmd.Hamsterd.{
  domain_host, matches_domain, handle_connect, intercepted, choose_carrier, cached,
}

pub domain_host-join :
    (host port : Text)
    → IsPlain host
    → IsPlain port
    → domain_host (join_host_port host port) ≡ domain_host host
unfolding domain_host
domain_host-join host port p q =
    rw (split_host_port-join host port p q, split_host_port-none host p) refl

matches_domain-eq :
    (a b : Text) (domains : List Text)
    → domain_host a ≡ domain_host b
    → matches_domain a domains ≡ matches_domain b domains
unfolding matches_domain
matches_domain-eq a b [] e = refl
matches_domain-eq a b (d ∷ domains) e =
    ap (λ h. any (λ x. equal_fold h (trim_last b'.' x)) (d ∷ domains)) e

-- Whatever the configured domains, the handler of CONNECT intercepts a tunnel to a host without a colon
-- and brackets, at whatever port, exactly when the handler of requests sends the requests for that host
-- through the cache.
pub handle_connect-choose_carrier :
    (host port : Text) (domains : List Text)
    → IsPlain host
    → IsPlain port
    → (handle_connect domains (join_host_port host port) ≡ intercepted)
      ↔ (choose_carrier domains host ≡ cached)
unfolding handle_connect choose_carrier
handle_connect-choose_carrier host port domains p q =
    rw (matches_domain-eq (join_host_port host port) host domains (domain_host-join host port p q))
      (ground arith)

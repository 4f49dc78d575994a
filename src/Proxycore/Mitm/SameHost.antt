-- ===== src/Proxycore/Mitm/SameHost.antt =====
-- Every request of an intercepted tunnel of internal/proxycore/mitm.go goes to the host of CONNECT.
use hamsterd.Common.{
  ℕ, ◌≡◌, ◌⊎◌, inl, inr, refl, subst, Bool, false, Option, none, some, [], ◌∷◌, Text, codes,
  text_eq, text_eq_iff, not, ◌&&◌, arith, Bool-cases,
}
use hamsterd.Common.Strings.{has_byte, trim_last}
use hamsterd.Common.Net.Plain.{IsPlain, split_host_port-none, split_host_port-join}
use hamsterd.Common.Http.{Url, Request}
use hamsterd.Proxycore.Trust.{normalize_hostname}
use hamsterd.Proxycore.Mitm.{
  Session, host_only, authority_of, session_of, connect_parts, serve_mitm, forwarded, mitm_handler,
}

trim_last-plain : (s : Text) → has_byte b']' s ≡ false → trim_last b']' s ≡ s
unfolding trim_last has_byte
trim_last-plain [] h = refl
trim_last-plain (c ∷ []) h = ground arith
trim_last-plain (c ∷ d ∷ s) h = ground (arith, trim_last-plain (d ∷ s))

host_only-plain : (host : Text) → IsPlain host → host_only host ≡ host
unfolding host_only has_byte trim_last
host_only-plain [] p = ground (arith, split_host_port-none [] p)
host_only-plain (c ∷ host) p =
    ground
      (arith, split_host_port-none (c ∷ host) p, trim_last-plain (c ∷ host), p.no_open, p.no_close)

host_only-authority :
    (default_port host port : Text)
    → IsPlain host
    → IsPlain port
    → host_only (authority_of default_port host port) ≡ host
unfolding authority_of host_only
host_only-authority default_port host port p q = elim (Bool-cases (text_eq port default_port)) [
  | inl same ↦ rw (same, authority_of) (host_only-plain host p)
  | inr other ↦ rw (other, authority_of) (ground (arith, split_host_port-join host port p q))
]

-- The host that a CONNECT names.
abbrev pub connect_name : Text → Text
connect_name connect_host = normalize_hostname (connect_parts connect_host).0

host_only-session :
    (established : Bool) (first : Option ℕ) (connect_host : Text) (ss : Session)
    → IsPlain (connect_name connect_host)
    → IsPlain (connect_parts connect_host).1
    → serve_mitm established first connect_host ≡ some ss
    → host_only ss.authority ≡ connect_name connect_host
unfolding serve_mitm session_of
host_only-session established none connect_host ss p q h = absurd (ground arith)
host_only-session established (some byte) connect_host ss p q h =
    let (raw, port) = connect_parts connect_host in
    ground (
      arith,
      host_only-authority (codes "443") (normalize_hostname raw) port p q,
      host_only-authority (codes "80") (normalize_hostname raw) port p q,
    )

host_agrees :
    (authority : Text) (request : Request)
    → (not (text_eq request.host [])
        && not (
            text_eq
              (normalize_hostname (host_only request.host))
              (normalize_hostname (host_only authority))))
      ≡ false
    → (request.host ≡ [])
      ⊎ (normalize_hostname (host_only request.host) ≡ normalize_hostname (host_only authority))
host_agrees authority request h = elim (Bool-cases (text_eq request.host [])) [
  | inl absent ↦ inl ((text_eq_iff request.host []).0 absent)
  | inr present ↦ inr (
      ground (
        arith,
        text_eq_iff (normalize_hostname (host_only request.host))
            (normalize_hostname (host_only authority)),
      ))
]

-- In a tunnel to a host whose name and port have no colons or brackets, each request that is passed
-- on goes to the authority of the tunnel, whose host is the normalised host of CONNECT, is itself
-- no CONNECT, and has either no Host header or one that names the same host.
pub mitm-same_host :
    (established : Bool) (first : Option ℕ) (connect_host : Text) (ss : Session)
    (request request' : Request) (url : Url)
    → IsPlain (connect_name connect_host)
    → IsPlain (connect_parts connect_host).1
    → serve_mitm established first connect_host ≡ some ss
    → mitm_handler ss.scheme ss.authority request url ≡ forwarded request'
    → (request'.url ≡ some (record url { scheme = ss.scheme; host = ss.authority }))
      × (host_only ss.authority ≡ connect_name connect_host)
      × (text_eq request.method (codes "CONNECT") ≡ false)
      × ((request.host ≡ [])
          ⊎ (normalize_hostname (host_only request.host)
              ≡ normalize_hostname (connect_name connect_host)))
unfolding mitm_handler
mitm-same_host established first connect_host ss request request' url p q opened h =
    let same = host_only-session established first connect_host ss p q opened in
    (
      ground arith,
      same,
      ground arith,
      subst
          (λ host.
            (request.host ≡ [])
            ⊎ (normalize_hostname (host_only request.host) ≡ normalize_hostname host))
          same (host_agrees ss.authority request (ground arith)),
    )

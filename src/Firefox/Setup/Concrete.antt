-- ===== src/Firefox/Setup/Concrete.antt =====
-- The host of the preferences of internal/firefox/firefox.go.
use hamsterd.Common.{
  ◌≡◌, refl, subst, Bool, false, Option, none, some, [], Text, codes, text_eq, arith, Option-cases,
  Bool-cases, inl, inr,
}
use hamsterd.Common.Int.{ℤ, pos, ◌≤ℤ◌, ltb_ℤ→le}
use hamsterd.Common.Ip.{Ip, parse_ip, is_unspecified, is_ipv4}
use hamsterd.Common.Net.{split_host_port}
use hamsterd.Common.Numbers.{parse_int, parse_digits}
use hamsterd.Common.Strings.{has_byte, split, has_prefix, is_digit}
use hamsterd.Firefox.Setup.{concrete_ip, concrete_host, preference_target, preference_port}

abbrev stands_for_all : Option Ip → Bool
stands_for_all none = false
stands_for_all (some ip) = is_unspecified ip

-- Not empty, and no address that stands for all interfaces.
abbrev IsConcrete : Text → Type 0
IsConcrete host = (text_eq host [] ≡ false) × (stands_for_all (parse_ip host) ≡ false)

local_v4 : IsConcrete (codes "127.0.0.1")
unfolding text_eq parse_ip is_unspecified has_byte split parse_digits
local_v4 = (refl, refl)

local_v6 : IsConcrete (codes "::1")
unfolding text_eq parse_ip is_unspecified has_byte has_prefix is_digit
local_v6 = (refl, refl)

concrete_ip-IsConcrete :
    (host : Text) → text_eq host [] ≡ false → IsConcrete (concrete_ip host (parse_ip host))
unfolding concrete_ip
concrete_ip-IsConcrete host n = elim (Option-cases (parse_ip host)) [
  | inl e ↦ rw (e, concrete_ip) (n, rw e refl)
  | inr (ip, e) ↦ elim (Bool-cases (is_unspecified ip)) [
    | inr u ↦ rw (e, concrete_ip, u) (n, rw e u)
    | inl u ↦ elim (Bool-cases (is_ipv4 ip)) [
      | inl v ↦ rw (e, concrete_ip, u, v) local_v4
      | inr v ↦ rw (e, concrete_ip, u, v) local_v6
    ]
  ]
]

concrete_host-IsConcrete : (host : Text) → IsConcrete (concrete_host host)
unfolding concrete_host
concrete_host-IsConcrete host = elim (Bool-cases (text_eq host [])) [
  | inl e ↦ rw (concrete_host, e) local_v4
  | inr e ↦ rw (concrete_host, e) (concrete_ip-IsConcrete host e)
]

preference_port_lem :
    (name host : Text) (read : Option ℤ) (port : ℤ)
    → preference_port name read ≡ some (host, port)
    → (concrete_host name ≡ host) × ((pos 1 ≤ℤ port) × (port ≤ℤ pos 65535))
preference_port_lem name host none port e = absurd (ground (arith, e))
preference_port_lem name host (some n) port e =
    ground (arith, e, ltb_ℤ→le n (pos 1), ltb_ℤ→le (pos 65535) n)

-- When `writePreferences` accepts a proxy address, the host that it writes is not empty and is no
-- address that stands for all interfaces, and the port is between 1 and 65535.
pub preference_target-IsConcrete :
    (address host : Text) (port : ℤ)
    → preference_target address ≡ some (host, port)
    → IsConcrete host × ((pos 1 ≤ℤ port) × (port ≤ℤ pos 65535))
unfolding preference_target
preference_target-IsConcrete address host port e = elim (Option-cases (split_host_port address)) [
  | inl s ↦ absurd (ground (arith, e, s))
  | inr ((name, digits), s) ↦
      let (h, p) = preference_port_lem name host (parse_int digits) port (ground (arith, e, s)) in
      (subst IsConcrete h (concrete_host-IsConcrete name), p)
]

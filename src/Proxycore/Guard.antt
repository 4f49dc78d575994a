-- ===== src/Proxycore/Guard.antt =====
-- `destinationGuard` and the CONNECT handler of internal/proxycore/proxy.go.
pub mod Denied
pub mod Safety
use hamsterd.Common.{
  ℕ, Bool, true, false, Option, none, some, List, [], ◌∷◌, ◌++◌, Text, codes, text_eq, not, ◌&&◌,
  ◌||◌, ◌==◌, any, map, replicate, if◌then◌else◌,
}
use hamsterd.Common.Int.{ℤ, pos, eq_ℤ}
use hamsterd.Common.Strings.{has_suffix}
use hamsterd.Common.Numbers.{parse_int}
use hamsterd.Common.Ip.{
  Ip, ipv4, is_ipv4, byte4_at, parse_ip, is_loopback_ip, is_unspecified, is_link_local_unicast,
  is_multicast, is_link_local_multicast, is_interface_local_multicast,
}
use hamsterd.Common.Net.{split_host_port, join_host_port}
use hamsterd.Proxycore.Trust.{normalize_hostname, TrustSets, has_target, has_host}
use mathlib.Core.List.{reverse}

pub record Options : Type 0 where
  pub remote_clients : Bool
  pub connect_ports : List ℤ
  -- the trust list as it stands at the call
  pub trusted : Option TrustSets
  pub listen_address : Text

pub record Guard : Type 0 where
  pub enabled : Bool
  pub trusted : Option TrustSets
  -- the proxy's own addresses
  pub self : List Text

-- fd00:ec2::254 and 100.100.100.200
abbrev pub metadata_addresses : List Ip
metadata_addresses =
    (253 ∷ 0 ∷ 14 ∷ 194 ∷ (replicate 10 0 ++ 2 ∷ 84 ∷ [])) ∷ ipv4 100 100 100 200 ∷ []

unfoldable pub denied_destination : Ip → Bool
denied_destination ip =
    if is_loopback_ip ip
      || (is_unspecified ip
          || (is_link_local_unicast ip
              || (is_link_local_multicast ip
                  || (is_interface_local_multicast ip || is_multicast ip))))
    then true
    else if is_ipv4 ip && (byte4_at 0 ip == 0 || text_eq ip (ipv4 255 255 255 255))
    then true
    else any (text_eq ip) metadata_addresses

-- strings.Trim at the two brackets.
abbrev is_bracket : ℕ → Bool
is_bracket c = c == b'[' || c == b']'

unfoldable pub trim_brackets_left : Text → Text
trim_brackets_left [] = []
trim_brackets_left (c ∷ s) = if is_bracket c then trim_brackets_left s else c ∷ s

unfoldable pub trim_brackets : Text → Text
trim_brackets s = reverse (trim_brackets_left (reverse (trim_brackets_left s)))

abbrev host_or_all : Text → Option (Text × Text) → Text
host_or_all host_port none = host_port
host_or_all host_port (some (host, port)) = host

unfoldable pub denied_name : Text → Bool
denied_name host =
    if text_eq host (codes "localhost") || has_suffix host (codes ".localhost")
    then true
    else elim (parse_ip host) [ none ↦ false | some ip ↦ denied_destination ip ]

-- `deniedHost`
unfoldable pub denied_host : Guard → Text → Bool
denied_host g host_port =
    let host =
      normalize_hostname (trim_brackets (host_or_all host_port (split_host_port host_port))) in
    if has_target g.trusted host_port
    then false
    else if has_host g.trusted host
    then false
    else denied_name host

-- `ip_text` is net.IP.String, and `interfaces` the answer of net.InterfaceAddrs.
module _ (ip_text : Ip → Text) where
  abbrev self_address : Text → Ip → Text
  self_address port ip = join_host_port (ip_text ip) port

  abbrev interface_addresses : Text → Option (List Ip) → List Text
  interface_addresses port none = []
  interface_addresses port (some ips) = map (self_address port) ips

  unfoldable pub self_addresses : Option (List Ip) → Text → List Text
  self_addresses interfaces listen = elim (split_host_port listen) [
    | none ↦ []
    | some (host, port) ↦ elim (parse_ip host) [
      | none ↦ interface_addresses port interfaces
      | some ip ↦
          if not (is_unspecified ip)
          then self_address port ip ∷ []
          else interface_addresses port interfaces
    ]
  ]

  unfoldable pub new_guard : Option (List Ip) → Options → Guard
  new_guard interfaces options = record {
    enabled = options.remote_clients;
    trusted = options.trusted;
    self = self_addresses interfaces options.listen_address;
  }

  -- The `Control` of the dialer, on a resolved address; false is ErrDestinationDenied.
  unfoldable pub control : Guard → Text → Bool
  control g address = elim (split_host_port address) [
    | none ↦ false
    | some (host, port) ↦ elim (parse_ip host) [
      | none ↦ false
      | some ip ↦
          if denied_destination ip then false else not (any (text_eq (self_address port ip)) g.self)
    ]
  ]

-- How a dial ends: with a connection to a resolved address, with ErrDestinationDenied, or with
-- another error.
pub data Dialed : Type 0 where
  connected : Text → Dialed
  denied unreachable : Dialed

-- net.Dialer, without and with a `Control`.
pub record Dialers : Type 0 where
  pub direct : Text → Dialed
  pub controlled : (Text → Bool) → Text → Dialed

unfoldable pub dial_context : (Ip → Text) → Dialers → Guard → Text → Dialed
dial_context ip_text d g address =
    if not g.enabled
    then d.direct address
    else if has_target g.trusted address
    then d.direct address
    else d.controlled (control ip_text g) address

abbrev pub default_connect_port : ℤ
default_connect_port = pos 443

unfoldable pub connect_port_allowed : Text → List ℤ → Bool
connect_port_allowed host_port ports = elim (split_host_port host_port) [
  | none ↦ false
  | some (_, raw) ↦ elim (parse_int raw) [ none ↦ false | some port ↦ any (eq_ℤ port) ports ]
]

abbrev pub ports_or_default : List ℤ → List ℤ
ports_or_default [] = default_connect_port ∷ []
ports_or_default (p ∷ ps) = p ∷ ps

pub data ConnectAnswer : Type 0 where
  pass reject_port reject_destination : ConnectAnswer

-- The CONNECT handler, which only a proxy for remote clients has.
unfoldable pub on_connect : Options → Guard → Text → ConnectAnswer
on_connect options g host =
    if not options.remote_clients
    then pass
    else if not (connect_port_allowed host (ports_or_default options.connect_ports))
    then reject_port
    else if denied_host g host
    then reject_destination
    else pass

abbrev dial_if_passed : ConnectAnswer → Dialed → Dialed
dial_if_passed pass d = d
dial_if_passed reject_port d = denied
dial_if_passed reject_destination d = denied

-- A tunnel: the CONNECT handler, and then `ConnectDial`.
unfoldable pub tunnel : (Ip → Text) → Dialers → Options → Guard → Text → Dialed
tunnel ip_text d options g host =
    dial_if_passed (on_connect options g host) (dial_context ip_text d g host)

-- The handler of requests for remote clients: whether it answers 403.
unfoldable pub refuses_request : Options → Guard → Text → Bool
refuses_request options g host = options.remote_clients && denied_host g host

-- The status for a request that failed, or that could not be dialed.
unfoldable pub error_status : Bool → ℕ
error_status destination_denied = if destination_denied then 403 else 502

-- `writeConnectError`: the status that is written, if any. `op` is the Op of a net.OpError.
unfoldable pub connect_error : Option Text → Bool → Option ℕ
connect_error none destination_denied = some (error_status destination_denied)
connect_error (some op) destination_denied =
    if not (text_eq op (codes "dial")) then none else some (error_status destination_denied)

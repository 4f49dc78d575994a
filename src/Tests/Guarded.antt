-- ===== src/Tests/Guarded.antt =====
-- Runs of the destination guard and of the listener of internal/proxycore.
use hamsterd.Common.{
  ◌<◌, ◌≡◌, ◌≤◌, ◌+◌, ◌⊎◌, refl, Bool, true, false, none, if◌then◌else◌, [], ◌∷◌, Text, codes,
  text_eq, ◌||◌, any, arith, Bool-cases, inl, inr,
}
use hamsterd.Common.Strings.{
  lower_byte, is_space, trim_left, trim_right, trim_space, trim_last, has_suffix, has_prefix,
  cut_first, cut_last, has_byte, is_digit, split,
}
use hamsterd.Common.Numbers.{parse_int, parse_digits}
use hamsterd.Common.Ip.{
  Ip, parse_ip, is_loopback_ip, is_unspecified, is_link_local_unicast, is_multicast,
  is_link_local_multicast, is_interface_local_multicast,
}
use hamsterd.Common.Net.{split_host_port, join_host_port}
use hamsterd.Common.Dict.{lookup}
use hamsterd.Common.Http.{Header, canonical, header_values}
use hamsterd.Proxycore.Trust.{normalize_hostname, has_target, has_host}
use hamsterd.Proxycore.Guard.{
  Options, denied_destination, trim_brackets_left, trim_brackets, denied_name, denied_host,
  self_addresses, new_guard, control, Dialed, connected, denied, Dialers, dial_context,
  connect_port_allowed, on_connect, tunnel,
}
use hamsterd.Proxycore.Guard.Safety.{AsksControl, HasPort, allowed_ports, IsPublic, tunnel-IsPublic}
use hamsterd.Proxycore.Headers.{remove_connection_headers}
use hamsterd.Proxycore.Headers.Removal.{names_field, lookup-remove_connection_headers}
use hamsterd.Proxycore.Listener.{
  Listener, new_listener, take_slot, end_accept, close_conn, takes_slot, ends_accept, closes_conn,
  Reach, here, next,
}
use hamsterd.Proxycore.Listener.Slots.{open_conns, Reach-IsCounted}

-- A resolver that knows one name.
abbrev resolve : Text → Text
resolve address =
    if text_eq address (codes "www.example.com:443") then codes "93.184.216.34:443" else address

abbrev dial_controlled : (Text → Bool) → Text → Dialed
dial_controlled allowed address =
    if allowed (resolve address) then connected (resolve address) else denied

abbrev dialers : Dialers
dialers = record { direct = λ address. connected address; controlled = dial_controlled }

dialers-AsksControl : AsksControl dialers
dialers-AsksControl allowed address resolved e = elim (Bool-cases (allowed (resolve address))) [
  | inl asked ↦ ground (arith, asked, e)
  | inr refused ↦ absurd (ground (arith, refused, e))
]

-- The text of an address is not needed by these runs.
abbrev ip_text : Ip → Text
ip_text ip = codes "192.0.2.1"

abbrev options : Options
options = record {
  remote_clients = true;
  connect_ports = [];
  trusted = none;
  listen_address = codes "192.0.2.1:8080";
}

program : Unit {0}
unfolding tunnel on_connect connect_port_allowed denied_host denied_name denied_destination
    trim_brackets trim_brackets_left dial_context control new_guard self_addresses has_target
    has_host normalize_hostname split_host_port join_host_port cut_first cut_last has_byte is_digit
    split has_suffix has_prefix trim_last trim_space trim_left trim_right is_space lower_byte
    parse_int parse_digits parse_ip is_loopback_ip is_unspecified is_link_local_unicast is_multicast
    is_link_local_multicast is_interface_local_multicast text_eq
program = tt

www_connected :
    tunnel ip_text dialers options (new_guard ip_text none options) (codes "www.example.com:443")
    ≡ connected (codes "93.184.216.34:443")
unfolding program
www_connected = refl

-- The proxy's own address and a private name are refused.
own_address :
    tunnel ip_text dialers options (new_guard ip_text none options) (codes "192.0.2.1:8080")
    ≡ denied
unfolding program
own_address = refl

local_name :
    tunnel ip_text dialers options (new_guard ip_text none options) (codes "a.localhost:443")
    ≡ denied
unfolding program
local_name = refl

tunnel-IsPublic_example :
    HasPort (codes "www.example.com:443") (allowed_ports [])
    × ((has_target none (codes "www.example.com:443") ≡ true)
        ⊎ IsPublic ip_text none (codes "192.0.2.1:8080") (codes "93.184.216.34:443"))
tunnel-IsPublic_example =
    tunnel-IsPublic ip_text dialers none options (codes "www.example.com:443")
      (codes "93.184.216.34:443") dialers-AsksControl refl www_connected

abbrev hop_header : Header
hop_header =
    (codes "Connection", (codes "close, x-trace" ∷ []))
    ∷ (codes "X-Trace", (codes "1" ∷ []))
    ∷ (codes "Accept", (codes "*/*" ∷ []))
    ∷ []

lookup-remove_connection_headers_example :
    lookup (codes "X-Trace") (remove_connection_headers hop_header) ≡ (
      if text_eq (canonical (codes "Keep-Alive")) (codes "X-Trace")
        || any (names_field (codes "X-Trace")) (header_values (codes "Connection") hop_header)
      then none
      else lookup (codes "X-Trace") hop_header)
lookup-remove_connection_headers_example =
    lookup-remove_connection_headers (codes "X-Trace") hop_header

-- One accept under way and one connection that was closed.
abbrev listening : Listener
listening = record { limit = 2; slots = 1; closed = false; accepting = 1; conns = true ∷ [] }

abbrev one_waiting : Listener
one_waiting = record { limit = 2; slots = 1; closed = false; accepting = 1; conns = [] }

abbrev one_open : Listener
one_open = record { limit = 2; slots = 1; closed = false; accepting = 0; conns = false ∷ [] }

abbrev both_slots : Listener
both_slots = record { limit = 2; slots = 2; closed = false; accepting = 1; conns = false ∷ [] }

listening-Reach : Reach (new_listener 2) listening
unfolding take_slot end_accept close_conn
listening-Reach =
    next {m = both_slots}
      (next {m = one_open}
        (next {m = one_waiting} (next here (takes_slot refl)) (ends_accept true 0 refl refl))
        (takes_slot refl))
      (closes_conn 0 refl)

Reach-IsCounted_example :
    (listening.slots ≡ listening.accepting + open_conns listening.conns)
    × (listening.accepting + open_conns listening.conns ≤ 2)
Reach-IsCounted_example = Reach-IsCounted 2 listening-Reach

listening_free : listening.accepting + open_conns listening.conns < 2
unfolding open_conns
listening_free = omega arith

-- ===== src/Proxycore/Mitm.antt =====
-- internal/proxycore/mitm.go: the session that `serveMITM` opens, and the handler of its requests.
pub mod SameHost
use hamsterd.Common.{
  ℕ, Bool, true, false, Option, none, some, List, [], ◌∷◌, Text, codes, text_eq, not, ◌&&◌, ◌||◌,
  ◌==◌, any, if◌then◌else◌,
}
use hamsterd.Common.Strings.{trim_last, trim_space, has_suffix}
use hamsterd.Common.Net.{split_host_port, join_host_port}
use hamsterd.Common.Http.{Url, Request}
use hamsterd.Proxycore.Trust.{normalize_hostname}

-- strings.TrimPrefix with a prefix of one byte.
abbrev trim_first : ℕ → Text → Text
trim_first b [] = []
trim_first b (c ∷ s) = if c == b then s else c ∷ s

unfoldable pub host_only : Text → Text
unfolding trim_first
host_only host_port = elim (split_host_port host_port) [
  | some (host, _) ↦ host
  | none ↦ trim_last b']' (trim_first b'[' host_port)
]

-- What the handler is made for.
pub record Session : Type 0 where
  pub host : Text
  pub scheme : Text
  pub authority : Text

-- The host and the port of a CONNECT.
unfoldable pub connect_parts : Text → Text × Text
connect_parts connect_host = elim (split_host_port connect_host) [
  | some (host, port) ↦ (host, port)
  | none ↦ (connect_host, codes "443")
]

-- The first byte of a TLS handshake record.
abbrev pub handshake_byte : ℕ
handshake_byte = 0x16

unfoldable pub authority_of : Text → Text → Text → Text
authority_of default_port host port =
    if not (text_eq port default_port) then join_host_port host port else host

unfoldable pub session_of : Text → Text → ℕ → Session
session_of host port first =
    if first == handshake_byte
    then record {
      host = host;
      scheme = codes "https";
      authority = authority_of (codes "443") host port;
    }
    else record {
      host = host;
      scheme = codes "http";
      authority = authority_of (codes "80") host port;
    }

-- `serveMITM` up to its server. The answer to CONNECT may fail to be written, and `first` is the
-- first byte that the client sends, if any comes in time.
unfoldable pub serve_mitm : Bool → Option ℕ → Text → Option Session
serve_mitm established first connect_host =
    let (raw, port) = connect_parts connect_host in
    let host = normalize_hostname raw in
    if text_eq host [] || not established
    then none
    else elim first [ none ↦ none | some byte ↦ some (session_of host port byte) ]

pub data MitmAnswer : Type 0 where
  -- the status of an error
  refused : ℕ → MitmAnswer
  forwarded : Request → MitmAnswer

-- `mitmHandler` at a request with the given URL.
unfoldable pub mitm_handler : Text → Text → Request → Url → MitmAnswer
mitm_handler scheme authority request url =
    let expected = normalize_hostname (host_only authority) in
    if text_eq request.method (codes "CONNECT")
    then refused 405
    else if not (text_eq request.host [])
        && not (text_eq (normalize_hostname (host_only request.host)) expected)
    then refused 421
    else forwarded
        (record request { url = some (record url { scheme = scheme; host = authority }) })

-- Whether `errorLogFilter` drops a message.
unfoldable pub is_noise : Text → Bool
is_noise message = any (has_suffix (trim_space message)) (
    codes ": EOF"
    ∷ codes "connection reset by peer"
    ∷ codes "broken pipe"
    ∷ codes "i/o timeout"
    ∷ [])

-- `singleConnListener`; the connection is `true` until it is accepted.
pub record SingleListener : Type 0 where
  pub conn : Bool
  pub closed : Bool

pub data Accepted : Type 0 where
  connection blocks closed_error : Accepted

unfoldable pub accept_single : SingleListener → SingleListener × Accepted
accept_single l = (
  record l { conn = false },
  if l.conn then connection else if l.closed then closed_error else blocks,
)

unfoldable pub close_single : SingleListener → SingleListener
close_single l = record l { closed = true }

-- ===== src/Cmd/Lemmingd.antt =====
-- cmd/lemmingd/main.go: the handlers, and what the first argument selects.
pub mod Recorded
pub mod Commands
pub mod Start
use hamsterd.Common.{
  ℕ, ◌+◌, ◌/◌, ◌%◌, Bool, false, Option, none, some, List, [], ◌∷◌, map, Text, codes, text_eq, ◌||◌,
  ltb, if◌then◌else◌,
}
use hamsterd.Common.Clock.{Time, zero_time}
use hamsterd.Common.Strings.{join}
use hamsterd.Common.Ip.{Ip, parse_ip, is_unspecified}
use hamsterd.Common.Net.{split_host_port, join_host_port, hostname}
use hamsterd.Common.Http.{Url, Request, Response}
use hamsterd.Redirect.{Router, rewrite, intercepts}
use hamsterd.Lemming.Recent.{RequestView, Ring, record_request}

abbrev is_wildcard : Option Ip → Bool
is_wildcard none = false
is_wildcard (some ip) = is_unspecified ip

-- `clientAddress`
unfoldable pub client_address : Text → Text
client_address listen = elim (split_host_port listen) [
  | none ↦ listen
  | some (host, port) ↦
      join_host_port
        (if text_eq host [] || is_wildcard (parse_ip host) then codes "127.0.0.1" else host) port
]

upper_digit : ℕ → ℕ
upper_digit n = if ltb n 10 then b'0' + n else 55 + n

-- `fingerprint` behind the sum.
unfoldable pub fingerprint : List ℕ → Text
unfolding upper_digit
fingerprint sum = join (codes ":") (map (λ b. upper_digit (b / 16) ∷ upper_digit (b % 16) ∷ []) sum)

-- What a transport answers: a response, or the text of an error.
pub data Fetched : Type 0 where
  responded : Response → Fetched
  not_fetched : Text → Fetched

-- The outcome that `recordingRoundTripper` writes into the record.
unfoldable pub outcome : Time → RequestView → Fetched → RequestView
outcome now view (responded response) = record view { time = now; status = response.status_code }
outcome now view (not_fetched text) = record view { time = now; status = 502; error = text }

-- `recordingRoundTripper`
unfoldable pub recording_round_trip :
    (Request → Fetched) → Time → RequestView → Request → Ring → Ring × Fetched
recording_round_trip transport now view request ring =
    let fetched = transport request in (record_request (outcome now view fetched) ring, fetched)

-- The record of a request before it is sent; `escaped_path` is url.URL.EscapedPath.
unfoldable pub request_view : (Url → Text) → Request → Url → RequestView
request_view escaped_path request url = record {
  time = zero_time;
  method = request.method;
  host = hostname url.host;
  path = escaped_path url;
  target = [];
  status = 0;
  error = [];
}

abbrev host_of_url : Option Url → Text
host_of_url none = []
host_of_url (some url) = url.host

-- The handler of requests: the request that is sent, and its record.
unfoldable pub route_request : (Url → Text) → Router → Request → Url → Request × RequestView
route_request escaped_path router request url =
    let view = request_view escaped_path request url in
    let (rewritten, changed) = rewrite router request url in
    (rewritten, if changed then record view { target = host_of_url rewritten.url } else view)

-- A request from the handler through the transport.
unfoldable pub serve_request :
    (Url → Text) → Router → (Request → Fetched) → Time → Request → Url → Ring → Ring × Fetched
serve_request escaped_path router transport now request url ring =
    let (rewritten, view) = route_request escaped_path router request url in
    recording_round_trip transport now view rewritten ring

pub data ConnectAction : Type 0 where
  tunneled intercepted : ConnectAction

-- The handler of CONNECT.
unfoldable pub handle_connect : Router → Text → ConnectAction
handle_connect router host = if intercepts router host then intercepted else tunneled

-- The part of the program that the first argument selects, with the other arguments.
pub data Mode : Type 0 where
  mcp_mode config_mode firefox_mode proxy_mode : List Text → Mode

-- The beginning of `run`.
unfoldable pub mode_of : List Text → Mode
mode_of [] = proxy_mode []
mode_of (name ∷ args) =
    if text_eq name (codes "mcp")
    then mcp_mode args
    else if text_eq name (codes "config")
    then config_mode args
    else if text_eq name (codes "firefox")
    then firefox_mode args
    else proxy_mode (name ∷ args)

-- The answers of `informationHandler` to GET: the content type and the body.
unfoldable pub information : Text → Text → Text × Text
information ca_pem path =
    if text_eq path (codes "/ca.crt")
    then (codes "application/x-x509-ca-cert", ca_pem)
    else if text_eq path (codes "/healthz")
    then (codes "text/plain; charset=utf-8", codes "ok\n")
    else (
      codes "text/plain; charset=utf-8",
      codes
          "lemmingd selective local-development proxy\nCA certificate: /ca.crt\nHealth check: /healthz\n",
    )

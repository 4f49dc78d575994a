-- ===== src/Tests/Controlled.antt =====
-- Runs of the control API's server and client of internal/control/control.go.
use hamsterd.Common.{
  ◌≡◌, ◌≢◌, refl, true, false, Option, none, some, if◌then◌else◌, [], ◌∷◌, ◌++◌, Text, codes,
  text_eq, subst, take,
}
use hamsterd.Common.Int.{pos}
use hamsterd.Common.Strings.{cut_last, is_digit}
use hamsterd.Common.Dict.{insert}
use hamsterd.Common.Http.{Url, header_set, canonical}
use hamsterd.Common.Net.{hostname, url_port}
use hamsterd.Control.Endpoint.{
  Endpoint, EndpointCodec, OwnedFile, check_owner, decode_endpoint, read_endpoint, write_endpoint,
  max_request_bytes,
}
use hamsterd.Control.Server.{
  Server, StartFaults, hex_text, started_endpoint, publish, start, close, authorize, admitted,
}
use hamsterd.Control.Client.{
  ClientFunctions, not_permitted, process_alive, ClientCall, Sent, is_local, sends, request_at,
  build_request, encode_body, prepare, Received, receive, client_do,
}
use hamsterd.Control.Lifetime.{readable, ReadsBack, close-owner}
use hamsterd.Control.Access.{IsTrusted, prepare-IsTrusted}
use hamsterd.Control.Admission.{client_do-admitted}

abbrev server : Server
server = record { address = codes "127.0.0.1:4000"; token = codes "0aff" }

abbrev first_server : Server
first_server = record { address = codes "127.0.0.1:3999"; token = codes "0000" }

abbrev published : Endpoint
published = record {
  version = pos 1;
  service = codes "lemmingd";
  url = codes "http://127.0.0.1:4000";
  token = codes "0aff";
  pid = pos 7;
}

abbrev unmarshal : Text → Option Endpoint
unmarshal text = if text_eq text (codes "{}" ++ 10 ∷ []) then some published else none

-- A codec that knows one endpoint.
abbrev codec : EndpointCodec
codec = record { marshal = λ e. some (codes "{}"); unmarshal = unmarshal }

abbrev faults : StartFaults
faults = record {
  directory = some (0o700, some 1000);
  secret = some (10 ∷ 255 ∷ []);
  listen = some (codes "127.0.0.1:4000");
  write = record { create = true; chmod = true; write = true; close = true; rename = true };
}

abbrev file : OwnedFile
file = record { content = codes "{}" ++ 10 ∷ []; mode = 0o600; regular = true; owner = some 1000 }

abbrev url_at : Text → Url
url_at path = record {
  scheme = codes "http";
  user = none;
  host = codes "127.0.0.1:4000";
  path = path;
  raw_path = [];
  force_query = false;
  raw_query = [];
  fragment = [];
}

abbrev base : Url
base = url_at []

abbrev target : Url
target = url_at (codes "/v1/rules")

abbrev parse_local : Text → Option Url
parse_local text =
    if text_eq text (codes "http://127.0.0.1:4000")
    then some base
    else if text_eq text (codes "http://127.0.0.1:4000/v1/rules")
    then some target
    else none

abbrev functions : ClientFunctions
functions = record {
  parse = parse_local;
  kill = λ pid. not_permitted;
  error_message = λ text. none;
}

abbrev get_rules : ClientCall
get_rules = record { method = codes "GET"; path = codes "/v1/rules"; body = none }

program : Unit {0}
unfolding start publish write_endpoint started_endpoint check_owner hex_text read_endpoint
    decode_endpoint is_local hostname url_port cut_last is_digit prepare encode_body build_request
    process_alive request_at header_set canonical insert text_eq
program = tt

started : start codec faults 1000 (codes "lemmingd") (pos 7) none ≡ (some file, some server)
unfolding program
started = refl

codec-ReadsBack : ReadsBack codec (started_endpoint (codes "lemmingd") (pos 7) server)
unfolding program
codec-ReadsBack text e =
    let same : codes "{}" ≡ text = cc in
    subst (λ t. codec.unmarshal (take max_request_bytes (t ++ 10 ∷ [])) ≡ some published) same refl

other_token : server.token ≢ first_server.token
other_token e = absurd (cc)

close-owner_example :
    (close codec readable false 1000 first_server (some file) ≡ (some file, true))
    × (close codec readable true 1000 server (some file) ≡ (none, true))
close-owner_example =
    close-owner codec 1000 faults (codes "lemmingd") (pos 7) first_server server none (some file)
      false started codec-ReadsBack other_token

abbrev rules_request : Sent
rules_request = request_at published (codes "GET") none target

rules_sent :
    prepare functions (codes "lemmingd") get_rules (read_endpoint codec readable 1000 (some file))
    ≡ sends rules_request
unfolding program
rules_sent = refl

prepare-IsTrusted_example :
    IsTrusted codec 1000 functions (codes "lemmingd") get_rules (some file) rules_request
prepare-IsTrusted_example =
    prepare-IsTrusted codec readable 1000 (some file) functions (codes "lemmingd") get_rules
      rules_request rules_sent

published_local :
    is_local (codes "lemmingd") (started_endpoint (codes "lemmingd") (pos 7) server) base ≡ true
unfolding program
published_local = refl

base_parsed : functions.parse (codes "http://" ++ server.address) ≡ some base
unfolding text_eq
base_parsed = refl

target_parsed :
    functions.parse (codes "http://" ++ (server.address ++ get_rules.path)) ≡ some target
unfolding text_eq
target_parsed = refl

running : process_alive (functions.kill (pos 7)) (pos 7) ≡ true
unfolding program
running = refl

no_body : get_rules.body ≢ some none
no_body e = absurd (cc)

client_do-admitted_example :
    (sent : Sent) × (authorize server sent.request ≡ admitted max_request_bytes)
    × ((send : Sent → Received)
        → client_do functions
            (codes "lemmingd")
            get_rules
            (read_endpoint codec readable 1000 (some file))
            send
          ≡ receive functions (send sent))
client_do-admitted_example =
    client_do-admitted codec faults 1000 (codes "lemmingd") (pos 7) server none (some file)
      functions get_rules base target started codec-ReadsBack base_parsed refl published_local
      running target_parsed refl no_body

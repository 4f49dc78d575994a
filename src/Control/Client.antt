-- ===== src/Control/Client.antt =====
-- `Client.Do` of internal/control/control.go.
use hamsterd.Common.{
  ℕ, Bool, false, Option, none, some, [], ◌++◌, Text, codes, text_eq, not, ◌&&◌, ◌||◌, is_some,
  take, ltb, if◌then◌else◌,
}
use hamsterd.Common.Int.{ℤ, pos, ltb_ℤ}
use hamsterd.Common.Http.{Url, Request, header_set}
use hamsterd.Common.Net.{hostname, url_port}
use hamsterd.Control.Endpoint.{Endpoint, EndpointResult, not_exist, unreadable, endpoint}

abbrev pub max_response_bytes : ℕ
max_response_bytes = 1048576

pub data Killed : Type 0 where
  signalled not_permitted no_process : Killed

-- `processAlive` on Unix.
unfoldable pub process_alive : Killed → ℤ → Bool
process_alive signalled pid = ltb_ℤ (pos 0) pid
process_alive not_permitted pid = ltb_ℤ (pos 0) pid
process_alive no_process pid = false

-- What `Do` uses of net/url, of the system and of encoding/json: `parse` is url.Parse with its
-- errors as `none`, `kill` is the answer to signal 0, `error_message` is the `error` field of a JSON
-- answer.
pub record ClientFunctions : Type 0 where
  pub parse : Text → Option Url
  pub kill : ℤ → Killed
  pub error_message : Text → Option Text

pub data ClientError : Type 0 where
  not_running : ClientError
  -- the errors of reading the endpoint file and of encoding, sending and receiving
  io_error : ClientError
  not_local : ClientError
  -- the error that the API reports, and one without a message
  api_error : Text → ClientError
  bad_status : ℕ → ClientError

-- The call that `Do` makes: the method, the path and the encoded body, where there is one; `none`
-- inside is an error of json.Marshal.
pub record ClientCall : Type 0 where
  pub method : Text
  pub path : Text
  pub body : Option (Option Text)

pub record Sent : Type 0 where
  pub request : Request
  pub body : Option Text

-- The condition on the published URL and service.
unfoldable pub is_local : Text → Endpoint → Url → Bool
is_local service e base =
    text_eq e.service service
    && text_eq base.scheme (codes "http")
    && not (is_some base.user)
    && text_eq (hostname base.host) (codes "127.0.0.1")
    && not (text_eq (url_port base.host) [])
    && (text_eq base.path [] || text_eq base.path (codes "/"))
    && text_eq base.raw_query []
    && text_eq base.fragment []

pub data Prepared : Type 0 where
  stopped : ClientError → Prepared
  sends : Sent → Prepared

-- The request of http.NewRequest at `url`, with its two header fields.
unfoldable pub request_at : Endpoint → Text → Option Text → Url → Sent
request_at e method body url =
    let header = header_set (codes "Authorization") (codes "Bearer " ++ e.token) [] in
    record {
      request = record {
        method = method;
        url = some url;
        header =
            if is_some body
            then header_set (codes "Content-Type") (codes "application/json") header
            else header;
        host = url.host;
      };
      body = body;
    }

unfoldable pub build_request :
    ClientFunctions → Endpoint → Text → ClientCall → Option Text → Prepared
build_request f e host call body = elim (f.parse (codes "http://" ++ (host ++ call.path))) [
  | none ↦ stopped io_error
  | some parsed ↦ sends (request_at e call.method body parsed)
]

unfoldable pub encode_body : ClientFunctions → Endpoint → Text → ClientCall → Prepared
encode_body f e host call = elim call.body [
  | none ↦ build_request f e host call none
  | some none ↦ stopped io_error
  | some (some text) ↦ build_request f e host call (some text)
]

-- `Do` up to the request.
unfoldable pub prepare : ClientFunctions → Text → ClientCall → EndpointResult → Prepared
prepare f service call not_exist = stopped not_running
prepare f service call unreadable = stopped io_error
prepare f service call (endpoint e) = elim (f.parse e.url) [
  | none ↦ stopped not_local
  | some base ↦
      if not (is_local service e base)
      then stopped not_local
      else if not (process_alive (f.kill e.pid) e.pid)
      then stopped not_running
      else encode_body f e base.host call
]

-- What comes back: an error of dialing, another error, or a status and a body that can be read or not.
pub data Received : Type 0 where
  no_dial failed : Received
  answer : ℕ → Option Text → Received

-- `Do` from the response on: the body to be decoded, or an error.
pub data Done : Type 0 where
  client_error : ClientError → Done
  done : Text → Done

unfoldable pub status_error : ClientFunctions → ℕ → Text → ClientError
status_error f code text = elim (f.error_message text) [
  | none ↦ bad_status code
  | some message ↦ if text_eq message [] then bad_status code else api_error message
]

unfoldable pub receive : ClientFunctions → Received → Done
receive f no_dial = client_error not_running
receive f failed = client_error io_error
receive f (answer code none) = client_error io_error
receive f (answer code (some text)) =
    if ltb code 300
    then done (take max_response_bytes text)
    else client_error (status_error f code (take max_response_bytes text))

unfoldable pub client_do :
    ClientFunctions → Text → ClientCall → EndpointResult → (Sent → Received) → Done
client_do f service call published send = elim (prepare f service call published) [
  | stopped e ↦ client_error e
  | sends sent ↦ receive f (send sent)
]

-- ===== src/Control/Access.antt =====
-- Which requests the client of internal/control/control.go sends.
use Prim.Native.Nat.{bit_and}
use hamsterd.Common.{
  ℕ, ◌≡◌, ◌⊎◌, inl, inr, refl, ap, ◌∙◌, true, Option, none, subst, take, some, ◌++◌, Text, codes,
  text_eq, text_eq_iff, Option-cases, Bool-cases, ◌==◌, arith,
}
use hamsterd.Common.Http.{Url, header_get, header_set, header_values, canonical}
use hamsterd.Common.Dict.{insert, lookup}
use hamsterd.Common.Int.{pos, eq_ℤ}
use hamsterd.Common.Net.{hostname}
use hamsterd.Control.Endpoint.{
  Endpoint, EndpointCodec, OwnedFile, OpenFaults, EndpointResult, not_exist, unreadable, endpoint,
  check_owner, decode_endpoint, read_endpoint, max_request_bytes,
}
use hamsterd.Control.Client.{
  ClientFunctions, ClientCall, Sent, is_local, sends, request_at, build_request, encode_body,
  prepare,
}

module _ (f : ClientFunctions) (e : Endpoint) (host : Text) where
  build_request-sends :
      (call : ClientCall) (body : Option Text) (sent : Sent)
      → build_request f e host call body ≡ sends sent
      → (parsed : Url) × (f.parse (codes "http://" ++ (host ++ call.path)) ≡ some parsed)
        × (sent ≡ request_at e call.method body parsed)
  unfolding build_request
  build_request-sends call body sent run = ground arith

  encode_body-sends :
      (call : ClientCall) (sent : Sent)
      → encode_body f e host call ≡ sends sent
      → (body : Option Text) × (build_request f e host call body ≡ sends sent)
  unfolding encode_body
  encode_body-sends call sent run = elim (Option-cases call.body) [
    | inl b ↦ (none, ground (arith, b, run))
    | inr (none, b) ↦ absurd (ground (arith, b, run))
    | inr (some text, b) ↦ (some text, ground (arith, b, run))
  ]

-- What a request that is sent owes to the endpoint file.
pub record IsTrusted (codec : EndpointCodec) (uid : ℕ) (f : ClientFunctions) (service : Text)
    (call : ClientCall) (file : Option OwnedFile) (sent : Sent) : Type 0 where
  pub owned : OwnedFile
  pub present : file ≡ some owned
  pub is_private : bit_and owned.mode 0o077 ≡ 0
  pub owner : (owned.owner ≡ none) ⊎ (owned.owner ≡ some uid) ⊎ (owned.owner ≡ some 0)
  pub published : Endpoint
  pub content : codec.unmarshal (take max_request_bytes owned.content) ≡ some published
  pub version : published.version ≡ pos 1
  pub same_service : published.service ≡ service
  pub base : Url
  pub parsed : Url
  pub based : f.parse published.url ≡ some base
  pub loopback : hostname base.host ≡ codes "127.0.0.1"
  pub target : f.parse (codes "http://" ++ (base.host ++ call.path)) ≡ some parsed
  pub at_target : sent.request.url ≡ some parsed
  pub sent_to : sent.request.host ≡ parsed.host
  pub called : sent.request.method ≡ call.method
  pub bearer :
      header_get (codes "Authorization") sent.request.header ≡ codes "Bearer " ++ published.token

bearer-request_at :
    (e : Endpoint) (method : Text) (body : Option Text) (url : Url)
    → header_get (codes "Authorization") (request_at e method body url).request.header
      ≡ codes "Bearer " ++ e.token
unfolding request_at header_get header_values header_set canonical insert lookup text_eq
bearer-request_at e method none url = refl
bearer-request_at e method (some b) url = refl

check_owner-parts :
    (uid mode : ℕ) (owner : Option ℕ)
    → check_owner uid 0o077 mode owner ≡ true
    → (bit_and mode 0o077 ≡ 0) × ((owner ≡ none) ⊎ (owner ≡ some uid) ⊎ (owner ≡ some 0))
unfolding check_owner
check_owner-parts uid mode none h = (ground arith, inl refl)
check_owner-parts uid mode (some owner) h = (
  ground arith,
  elim (Bool-cases (owner == uid)) [
    | inl same ↦ inr (inl (ap some (ground (arith, same))))
    | inr other ↦ inr (inr (ap some (ground (arith, other, h))))
  ],
)

read_endpoint-private :
    (codec : EndpointCodec) (faults : OpenFaults) (uid : ℕ) (owned : OwnedFile) (e : Endpoint)
    → read_endpoint codec faults uid (some owned) ≡ endpoint e
    → check_owner uid 0o077 owned.mode owned.owner ≡ true
unfolding read_endpoint
read_endpoint-private codec faults uid owned e run = ground arith

decode_endpoint-parts :
    (codec : EndpointCodec) (text : Text) (e : Endpoint)
    → decode_endpoint codec text ≡ endpoint e
    → (codec.unmarshal text ≡ some e) × (e.version ≡ pos 1)
unfolding decode_endpoint
decode_endpoint-parts codec text e run = elim (Option-cases (codec.unmarshal text)) [
  | inl bad ↦ absurd (ground (arith, bad, run))
  | inr (other, known) ↦ elim (Bool-cases (eq_ℤ other.version (pos 1))) [
    | inl first ↦
        let same : other ≡ e = ground (arith, known, first, run) in
        (known ∙ ap some same, subst (λ x. x.version ≡ pos 1) same (ground arith))
    | inr newer ↦ absurd (ground (arith, known, newer, run))
  ]
]

read_endpoint-content :
    (codec : EndpointCodec) (faults : OpenFaults) (uid : ℕ) (owned : OwnedFile) (e : Endpoint)
    → read_endpoint codec faults uid (some owned) ≡ endpoint e
    → (codec.unmarshal (take max_request_bytes owned.content) ≡ some e) × (e.version ≡ pos 1)
unfolding read_endpoint
read_endpoint-content codec faults uid owned e run =
    decode_endpoint-parts codec (take max_request_bytes owned.content) e (ground arith)

is_local-parts :
    (service : Text) (e : Endpoint) (base : Url)
    → is_local service e base ≡ true
    → (e.service ≡ service) × (hostname base.host ≡ codes "127.0.0.1")
unfolding is_local
is_local-parts service e base h =
    ground
      (arith, text_eq_iff e.service service, text_eq_iff (hostname base.host) (codes "127.0.0.1"))

prepare-sends :
    (f : ClientFunctions) (service : Text) (call : ClientCall) (e : Endpoint) (sent : Sent)
    → prepare f service call (endpoint e) ≡ sends sent
    → (base : Url) × (f.parse e.url ≡ some base)
      × (is_local service e base ≡ true)
      × (encode_body f e base.host call ≡ sends sent)
unfolding prepare
prepare-sends f service call e sent run = ground arith

IsTrusted-request_at :
    (codec : EndpointCodec) (uid : ℕ) (f : ClientFunctions) (service : Text) (call : ClientCall)
    (owned : OwnedFile) (e : Endpoint) (sent : Sent)
    → check_owner uid 0o077 owned.mode owned.owner ≡ true
    → codec.unmarshal (take max_request_bytes owned.content) ≡ some e
    → e.version ≡ pos 1
    → prepare f service call (endpoint e) ≡ sends sent
    → IsTrusted codec uid f service call (some owned) sent
unfolding request_at
IsTrusted-request_at codec uid f service call owned e sent safe read version run =
    let (private_mode, owner) = check_owner-parts uid owned.mode owned.owner safe in
    let (base, based, checked, encoded) = prepare-sends f service call e sent run in
    let (same_service, loopback) = is_local-parts service e base checked in
    let (body, built) = encode_body-sends f e base.host call sent encoded in
    let (parsed, target, same) = build_request-sends f e base.host call body sent built in
    record {
      owned = owned;
      present = refl;
      is_private = private_mode;
      owner = owner;
      published = e;
      content = read;
      version = version;
      same_service = same_service;
      base = base;
      parsed = parsed;
      based = based;
      loopback = loopback;
      target = target;
      at_target = ap (λ x. x.request.url) same;
      called = ap (λ x. x.request.method) same;
      sent_to = ap (λ x. x.request.host) same;
      bearer =
          ap (λ x. header_get (codes "Authorization") x.request.header) same
          ∙ bearer-request_at e call.method body parsed;
    }

request_of_result :
    (codec : EndpointCodec) (faults : OpenFaults) (uid : ℕ) (owned : OwnedFile)
    (f : ClientFunctions) (service : Text) (call : ClientCall) (sent : Sent) (r : EndpointResult)
    → read_endpoint codec faults uid (some owned) ≡ r
    → prepare f service call r ≡ sends sent
    → IsTrusted codec uid f service call (some owned) sent
unfolding prepare
request_of_result codec faults uid owned f service call sent not_exist read run = absurd (cc)
request_of_result codec faults uid owned f service call sent unreadable read run = absurd (cc)
request_of_result codec faults uid owned f service call sent (endpoint e) read run =
    let (content, version) = read_endpoint-content codec faults uid owned e read in
    IsTrusted-request_at codec uid f service call owned e sent
      (read_endpoint-private codec faults uid owned e read) content version run

-- The client sends a request, and with it the token, only if the endpoint file exists, gives no
-- permission to the group and to others, belongs to this user, to root or to an unknown owner, and
-- the JSON of its first 64 KiB is an endpoint of version 1, of the wanted service and with a URL at
-- 127.0.0.1; the request has the method of the call, its URL is that of the host and port of the
-- published URL with the path of the call, as url.Parse reads them, and it carries the token of
-- the file.
pub prepare-IsTrusted :
    (codec : EndpointCodec) (faults : OpenFaults) (uid : ℕ) (file : Option OwnedFile)
    (f : ClientFunctions) (service : Text) (call : ClientCall) (sent : Sent)
    → prepare f service call (read_endpoint codec faults uid file) ≡ sends sent
    → IsTrusted codec uid f service call file sent
unfolding prepare read_endpoint
prepare-IsTrusted codec faults uid none f service call sent run = absurd (cc)
prepare-IsTrusted codec faults uid (some owned) f service call sent run =
    request_of_result codec faults uid owned f service call sent
      (read_endpoint codec faults uid (some owned)) refl run

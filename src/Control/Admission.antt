-- ===== src/Control/Admission.antt =====
-- The server of internal/control/control.go admits the requests of its client.
use hamsterd.Common.{
  ℕ, ◌≡◌, ◌≢◌, inl, inr, refl, ap, ◌∙◌, true, Option, none, some, ◌++◌, Text, codes, text_eq,
  text_eq_refl, Option-cases,
}
use hamsterd.Common.Int.{ℤ}
use hamsterd.Common.Http.{Url, header_get, header_set, header_values, canonical}
use hamsterd.Common.Dict.{insert, lookup}
use hamsterd.Control.Endpoint.{
  Endpoint, EndpointCodec, OwnedFile, endpoint, read_endpoint, max_request_bytes,
}
use hamsterd.Control.Server.{
  Server, StartFaults, started_endpoint, start, admitted, is_browser, authorize,
}
use hamsterd.Control.Client.{
  ClientFunctions, process_alive, ClientCall, Sent, is_local, sends, request_at, build_request,
  encode_body, prepare, Received, receive, client_do,
}
use hamsterd.Control.Lifetime.{readable, ReadsBack, read-started}

-- The header that `request_at` builds, for a request with a body and for one without.
authorize-request_at :
    (s : Server) (e : Endpoint) (method : Text) (body : Option Text) (url : Url)
    → e.token ≡ s.token
    → url.host ≡ s.address
    → authorize s (request_at e method body url).request ≡ admitted max_request_bytes
unfolding authorize is_browser request_at header_get header_values header_set canonical insert
    lookup text_eq
authorize-request_at s e method none url t h =
    rw (h, t, text_eq_refl s.address, text_eq_refl s.token) refl
authorize-request_at s e method (some b) url t h =
    rw (h, t, text_eq_refl s.address, text_eq_refl s.token) refl

module _ (f : ClientFunctions) (service : Text) (call : ClientCall) (s : Server)
    (e : Endpoint) where
  build_request-admitted :
      (body : Option Text) (parsed : Url)
      → e.token ≡ s.token
      → f.parse (codes "http://" ++ (s.address ++ call.path)) ≡ some parsed
      → parsed.host ≡ s.address
      → (sent : Sent) × (build_request f e s.address call body ≡ sends sent)
        × (authorize s sent.request ≡ admitted max_request_bytes)
  unfolding build_request
  build_request-admitted body parsed t p h = (
    request_at e call.method body parsed,
    rw (p, build_request) refl,
    authorize-request_at s e call.method body parsed t h,
  )

  encode_body-builds :
      (host : Text)
      → call.body ≢ some none
      → (body : Option Text) × (encode_body f e host call ≡ build_request f e host call body)
  unfolding encode_body build_request
  encode_body-builds host encodes = elim (Option-cases call.body) [
    | inl b ↦ (none, rw (b, encode_body) refl)
    | inr (none, b) ↦ absurd (encodes b)
    | inr (some text, b) ↦ (some text, rw (b, encode_body) refl)
  ]

  prepare-encodes :
      (base : Url)
      → f.parse e.url ≡ some base
      → is_local service e base ≡ true
      → process_alive (f.kill e.pid) e.pid ≡ true
      → prepare f service call (endpoint e) ≡ encode_body f e base.host call
  unfolding prepare
  prepare-encodes base p l a = rw (p, prepare, l, a) refl

-- A client of a started server sends its call: the request passes the server's checks of the host,
-- of browsers and of the token, and what the call gives is what the client makes of the answer. The
-- conditions: the endpoint file can be read, the JSON package reads back the endpoint, url.Parse
-- reads the published URL as a local one with the server's address and keeps that address with the
-- path of the call, the process is alive, and the body can be encoded.
pub client_do-admitted :
    (codec : EndpointCodec) (faults : StartFaults) (uid : ℕ) (service : Text) (pid : ℤ) (s : Server)
    (old file : Option OwnedFile) (f : ClientFunctions) (call : ClientCall) (base parsed : Url)
    → start codec faults uid service pid old ≡ (file, some s)
    → ReadsBack codec (started_endpoint service pid s)
    → f.parse (codes "http://" ++ s.address) ≡ some base
    → base.host ≡ s.address
    → is_local service (started_endpoint service pid s) base ≡ true
    → process_alive (f.kill pid) pid ≡ true
    → f.parse (codes "http://" ++ (s.address ++ call.path)) ≡ some parsed
    → parsed.host ≡ s.address
    → call.body ≢ some none
    → (sent : Sent) × (authorize s sent.request ≡ admitted max_request_bytes)
      × ((send : Sent → Received)
          → client_do f service call (read_endpoint codec readable uid file) send
            ≡ receive f (send sent))
unfolding client_do started_endpoint
client_do-admitted codec faults uid service pid s old file f call base parsed run reads p h l a p'
      h' b =
    let e = started_endpoint service pid s in
    let (body, encoded) = encode_body-builds f service call s e s.address b in
    let (sent, built, passes) = build_request-admitted f service call s e body parsed refl p' h' in
    let prepared : prepare f service call (read_endpoint codec readable uid file) ≡ sends sent =
      ap (prepare f service call) (read-started codec uid faults service pid s old file run reads)
      ∙ prepare-encodes f service call s e base p l a
      ∙ ap (λ host. encode_body f e host call) h
      ∙ encoded
      ∙ built in
    (sent, passes, λ send. rw (client_do, prepared) refl)

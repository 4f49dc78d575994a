-- ===== src/Cmd/Lemmingd/Recorded.antt =====
-- What cmd/lemmingd/main.go records of a request.
use hamsterd.Common.{ℕ, ◌≡◌, ◌⊎◌, refl, [], ◌∷◌, Text, if◌then◌else◌, arith, inl, inr}
use hamsterd.Common.Clock.{Time}
use hamsterd.Common.Net.{hostname}
use hamsterd.Common.Http.{Url, Request, Response}
use hamsterd.Redirect.{Router, rewrite}
use hamsterd.Lemming.Recent.{RequestView, Ring, recent}
use hamsterd.Lemming.Recent.Window.{IsRing}
use hamsterd.Lemming.Recent.Newest.{recent-record_request}
use hamsterd.Cmd.Lemmingd.{
  Fetched, responded, not_fetched, outcome, recording_round_trip, request_view, route_request,
  host_of_url, serve_request,
}

-- The status that a record has for an answer of the transport.
abbrev status_of : Fetched → ℕ
status_of (responded response) = response.status_code
status_of (not_fetched text) = 502

-- A record of the request as the client made it, with the host that it was sent to if the router
-- rewrote it, and the outcome of the transport.
pub record IsRecord (router : Router) (transport : Request → Fetched) (request : Request)
    (url : Url) (v : RequestView) : Type 0 where
  pub method : v.method ≡ request.method
  pub host : v.host ≡ hostname url.host
  pub target : v.target ≡ (
      if (rewrite router request url).1 then host_of_url (rewrite router request url).0.url else [])
  pub status : v.status ≡ status_of (transport (rewrite router request url).0)

Fetched-cases :
    (f : Fetched)
    → ((response : Response) × (f ≡ responded response)) ⊎ ((text : Text) × (f ≡ not_fetched text))
Fetched-cases (responded response) = inl (response, refl)
Fetched-cases (not_fetched text) = inr (text, refl)

outcome-IsRecord :
    (router : Router) (transport : Request → Fetched) (request : Request) (url : Url) (now : Time)
    (v : RequestView)
    → v.method ≡ request.method
    → v.host ≡ hostname url.host
    → v.target ≡ (
        if (rewrite router request url).1
        then host_of_url (rewrite router request url).0.url
        else [])
    → IsRecord router transport request url
        (outcome now v (transport (rewrite router request url).0))
unfolding outcome
outcome-IsRecord router transport request url now v m h t =
    elim (Fetched-cases (transport (rewrite router request url).0)) [
      | inl (response, e) ↦
          rw (e, outcome) (record { method = m; host = h; target = t; status = rw e refl })
      | inr (text, e) ↦
          rw (e, outcome) (record { method = m; host = h; target = t; status = rw e refl })
    ]

-- A request that comes to lemmingd with a URL is answered by what the transport answers to the request
-- as the router rewrites it, and from then on it is the newest of the recorded requests, also when
-- there is no response: with the method and the host as the client sent them, the target if the router
-- rewrote it, and the status of the response, or 502 without one. The ring is any that requests lead to.
pub serve_request-IsRecord :
    (escaped_path : Url → Text) (router : Router) (transport : Request → Fetched) (now : Time)
    (request : Request) (url : Url) (ring : Ring)
    → IsRing ring
    → let r = serve_request escaped_path router transport now request url ring in
      (r.1 ≡ transport (rewrite router request url).0)
      × ((v : RequestView) × (recent 1 r.0 ≡ v ∷ []) × IsRecord router transport request url v)
unfolding serve_request recording_round_trip route_request request_view
serve_request-IsRecord escaped_path router transport now request url ring h =
    let w = rewrite router request url in
    let v = (route_request escaped_path router request url).1 in
    let o = outcome now v (transport w.0) in
    (
      refl,
      (
        o,
        recent-record_request o ring h,
        outcome-IsRecord router transport request url now v (ground arith) (ground arith)
            (ground arith),
      ),
    )

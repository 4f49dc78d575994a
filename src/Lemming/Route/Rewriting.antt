-- ===== src/Lemming/Route/Rewriting.antt =====
-- `Route` of internal/lemming/service.go tells what `Rewrite` of internal/redirect/redirect.go does.
use hamsterd.Common.{
  ◌≡◌, sym, ◌∙◌, true, false, none, some, [], Text, if◌then◌else◌, arith, Option-cases, Bool-cases,
  inl, inr,
}
use hamsterd.Common.Dict.{lookup}
use hamsterd.Common.Http.{Url, Request}
use hamsterd.Redirect.{
  Router, normalize_host, matches, router_lookup, intercepts, request_rule, redirected, rewrite,
}
use hamsterd.Lemming.Route.{
  UrlFunctions, RouteView, absolute_url, with_path, target_of, route_view, route,
}

-- The text of the URL of a request, without user information, a lone question mark and a fragment.
abbrev pub request_url : UrlFunctions → Request → Text
request_url f request = elim request.url [
  | none ↦ []
  | some url ↦ f.url_text (record url { user = none; force_query = false; fragment = [] })
]

-- The three fields that the comparison is about.
pub record Tells (f : UrlFunctions) (r : Router) (request : Request) (url : Url) (v : RouteView)
    : Type 0 where
  pub intercepts_host : v.intercepted ≡ intercepts r url.host
  pub routes : v.routed ≡ (rewrite r request url).1
  pub sends_to :
      v.target_url
      ≡ (if (rewrite r request url).1 then request_url f (rewrite r request url).0 else [])

host-with_path : (url : Url) → (with_path url).host ≡ url.host
unfolding with_path
host-with_path url = ground arith

module _ (f : UrlFunctions) (r : Router) (raw : Text) where
  route_view-Tells :
      (request : Request) (url : Url)
      → request.host ≡ url.host
      → Tells f r request url (route_view f raw url (router_lookup r url.host url.path))
  unfolding router_lookup intercepts rewrite request_rule route_view target_of redirected
  route_view-Tells request url same =
      elim (Option-cases (lookup (normalize_host url.host) r.hosts)) [
        | inl nobody ↦
            let nobody' : lookup (normalize_host request.host) r.hosts ≡ none = rw same nobody in
            record {
              intercepts_host = ground arith;
              routes = ground arith;
              sends_to = ground arith;
            }
        | inr (rule, found) ↦ elim (Bool-cases (matches url.path rule)) [
          | inl fits ↦ record {
            intercepts_host = ground arith;
            routes = ground arith;
            sends_to = ground arith;
          }
          | inr other ↦ record {
            intercepts_host = ground arith;
            routes = ground arith;
            sends_to = ground arith;
          }
        ]
      ]

  -- For an absolute URL `Route` answers just what `Rewrite` does with a request for it whose Host
  -- field is the host of the URL: it says that the host is intercepted exactly if the router does,
  -- that the request is routed exactly if `Rewrite` redirects it, and then the URL to which
  -- `Rewrite` sends it, leaving aside user information, a question mark with no query behind it and
  -- a fragment, which `Rewrite` keeps and `Route` drops.
  pub route-rewrite :
      (parsed : Url) (request : Request)
      → f.parse raw ≡ some parsed
      → absolute_url parsed ≡ true
      → request.host ≡ parsed.host
      → (v : RouteView) × (route f r raw ≡ some v) × Tells f r request (with_path parsed) v
  unfolding route
  route-rewrite parsed request read absolute same =
      let url = with_path parsed in
      (
        route_view f raw url (router_lookup r url.host url.path),
        rw (read, route) (ground arith),
        route_view-Tells request url (same ∙ sym (host-with_path parsed)),
      )

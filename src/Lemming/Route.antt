-- ===== src/Lemming/Route.antt =====
-- `Route` of internal/lemming/service.go: where a request for a URL would go.
pub mod Rewriting
use hamsterd.Common.{
  Bool, true, false, Option, none, some, [], Text, codes, text_eq, not, ◌&&◌, ◌||◌, if◌then◌else◌,
}
use hamsterd.Common.Http.{Url}
use hamsterd.Redirect.{Rule, Router, router_lookup}

-- url.Parse, with its errors as `none`, and url.URL.String.
pub record UrlFunctions : Type 0 where
  pub parse : Text → Option Url
  pub url_text : Url → Text

-- The three explanations, without their wording.
pub data Explanation : Type 0 where
  not_listed not_matched : Explanation
  -- the Host header that stays
  keeps_host : Text → Explanation

pub record RouteView : Type 0 where
  pub url : Text
  pub intercepted : Bool
  pub routed : Bool
  pub target : Text
  pub target_url : Text
  pub explanation : Explanation

-- The checks on the parsed URL.
unfoldable pub absolute_url : Url → Bool
absolute_url url =
    (text_eq url.scheme (codes "http") || text_eq url.scheme (codes "https"))
    && not (text_eq url.host [])

-- Browsers request / for a URL without a path.
unfoldable pub with_path : Url → Url
with_path url = if text_eq url.path [] then record url { path = codes "/"; raw_path = [] } else url

-- The URL at the target: scheme, host, path and query alone.
unfoldable pub target_of : Rule → Url → Url
target_of rule url = record {
  scheme = rule.scheme;
  user = none;
  host = rule.target;
  path = url.path;
  raw_path = url.raw_path;
  force_query = false;
  raw_query = url.raw_query;
  fragment = [];
}

-- The `switch`, on the result of `Lookup`.
unfoldable pub route_view : UrlFunctions → Text → Url → Option (Rule × Bool) → RouteView
route_view f raw url none = record {
  url = raw;
  intercepted = false;
  routed = false;
  target = [];
  target_url = [];
  explanation = not_listed;
}
route_view f raw url (some (rule, false)) = record {
  url = raw;
  intercepted = true;
  routed = false;
  target = [];
  target_url = [];
  explanation = not_matched;
}
route_view f raw url (some (rule, true)) = record {
  url = raw;
  intercepted = true;
  routed = true;
  target = rule.target;
  target_url = f.url_text (target_of rule url);
  explanation = keeps_host url.host;
}

-- `Route`; `none` is the error of a URL that is not absolute.
unfoldable pub route : UrlFunctions → Router → Text → Option RouteView
route f r raw = elim (f.parse raw) [
  | none ↦ none
  | some parsed ↦
      if not (absolute_url parsed)
      then none
      else let url = with_path parsed in
        some (route_view f raw url (router_lookup r url.host url.path))
]

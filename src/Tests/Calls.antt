-- ===== src/Tests/Calls.antt =====
-- Calls of the control API of internal/lemming/service.go.
use hamsterd.Common.{
  ◌≤◌, ◌≡◌, refl, true, false, Option, none, some, if◌then◌else◌, [], ◌∷◌, Text, codes, text_eq,
  arith,
}
use hamsterd.Common.Int.{pos}
use hamsterd.Common.Http.{Url, Request}
use hamsterd.Config.Rule.{RedirectRule}
use hamsterd.Lemming.Route.{UrlFunctions, RouteView, absolute_url, with_path, route}
use hamsterd.Lemming.Route.Rewriting.{Tells, route-rewrite}
use hamsterd.Lemming.Api.{Api, BodyCodec, added_reply, after_change, handle_add, handle, post_rules}
use hamsterd.Lemming.Api.Effects.{handle-unchanged}
use hamsterd.Tests.Changes.{codec, good_system, no_files, service, program}

abbrev pub page : Url
page = record {
  scheme = codes "https";
  user = none;
  host = codes "mirror.example.com";
  path = codes "/pub/a";
  raw_path = [];
  force_query = false;
  raw_query = [];
  fragment = [];
}

abbrev page_text : Text
page_text = codes "https://mirror.example.com/pub/a"

abbrev pub parse_page : Text → Option Url
parse_page text = if text_eq text page_text then some page else none

abbrev pub urls : UrlFunctions
urls = record { parse = parse_page; url_text = λ url. url.host }

abbrev pub get_page : Request
get_page = record {
  method = codes "GET";
  url = some page;
  header = [];
  host = codes "mirror.example.com";
}

page_parsed : urls.parse page_text ≡ some page
unfolding text_eq
page_parsed = refl

page_absolute : absolute_url page ≡ true
unfolding absolute_url text_eq
page_absolute = refl

route-rewrite_example :
    (v : RouteView) × (route urls service.router page_text ≡ some v)
    × Tells urls service.router get_page (with_path page) v
route-rewrite_example =
    route-rewrite urls service.router page_text page get_page page_parsed page_absolute refl

-- A rule for a domain of config.json.
abbrev again : RedirectRule
again = record {
  target = codes "localhost:9000";
  domains = codes "Mirror.example.com" ∷ [];
  include = codes "/" ∷ [];
  exclude = [];
}

abbrev bodies : BodyCodec
bodies = record { decode_rule = λ text. some again; decode_url = λ text. none }

abbrev pub api : Api
api = record {
  info = record {
    version = [];
    listen = [];
    proxy_url = [];
    config_file = [];
    auto_rules_file = [];
    ca_cert_file = [];
    ca_fingerprint = [];
    ca_not_after = pos 0;
  };
  remote_client = false;
  service = service;
  ring = record { recent = []; next = 0 };
  files = no_files;
}

domain_taken : 300 ≤ (handle codec good_system bodies urls (post_rules (codes "{}")) api).1.code
unfolding program handle handle_add after_change added_reply
domain_taken = omega arith

handle-unchanged_example :
    ((handle codec good_system bodies urls (post_rules (codes "{}")) api).0.service ≡ service)
    × ((handle codec good_system bodies urls (post_rules (codes "{}")) api).0.ring ≡ api.ring)
handle-unchanged_example =
    handle-unchanged codec good_system bodies urls api (post_rules (codes "{}")) domain_taken

-- ===== src/Tests/Routes.antt =====
-- Runs of the routing of internal/redirect and of the rules of internal/config.
use hamsterd.Common.{
  true, false, none, some, is_some, if◌then◌else◌, List, [], ◌∷◌, Text, codes, ◌≡◌, refl, All,
}
use hamsterd.Common.Strings.{
  lower_byte, is_space, trim_left, trim_right, cut_last, trim_space, trim_last, has_prefix, split,
  contains_any, cut_scheme, is_digit, has_byte, text_eq,
}
use hamsterd.Common.Dict.{lookup, insert}
use hamsterd.Common.Numbers.{parse_int, parse_digits}
use hamsterd.Common.Ip.{parse_ip, is_loopback_ip}
use hamsterd.Common.Net.{split_host_port}
use hamsterd.Common.Http.{Url, Request}
use hamsterd.Config.Target.{
  parse_target, split_target, check_address, default_scheme, valid_port, loopback, is_loopback,
  normalize_domain, valid_domain, valid_label,
}
use hamsterd.Config.Rule.{
  RedirectRule, validate_rule, validate_rules, validate_rules_from, claim_domains, check_domains,
  check_prefixes, check_remote, duplicate_domain,
}
use hamsterd.Config.Rule.Distinct.{AllDistinct, all_keys, validate_rules-AllDistinct}
use hamsterd.Redirect.{
  Rule, Router, normalize_host, new_router, add_rules, add_hosts, matches, router_lookup,
  intercepts, rewrite, request_rule, redirected,
}
use hamsterd.Redirect.Spelling.{IsName, Spells}
use hamsterd.Redirect.Routing.{
  first_rule, declines, prefer, router_lookup-first_rule, FirstRule, rewrite_routed,
  rewrite_not_routed,
}

abbrev mirror : RedirectRule
mirror = record {
  target = codes "http://127.0.0.1:9000";
  domains = codes "Mirror.example.com." ∷ codes "cdn.example.com" ∷ [];
  include = codes "/pub/" ∷ [];
  exclude = codes "/pub/private/" ∷ [];
}

abbrev other : RedirectRule
other = record {
  target = codes "localhost:443";
  domains = codes "api.example.org" ∷ [];
  include = codes "/" ∷ [];
  exclude = [];
}

abbrev rules : List RedirectRule
rules = mirror ∷ other ∷ []

abbrev mirror_rule : Rule
mirror_rule = record {
  scheme = codes "http";
  target = codes "127.0.0.1:9000";
  include = codes "/pub/" ∷ [];
  exclude = codes "/pub/private/" ∷ [];
}

abbrev url_of : Text → Text → Url
url_of host path = record {
  scheme = codes "https";
  user = none;
  host = host;
  path = path;
  raw_path = [];
  force_query = false;
  raw_query = codes "a=1";
  fragment = [];
}

abbrev get_request : Url → Request
get_request url = record { method = codes "GET"; url = some url; header = []; host = [] }

program : Unit {0}
unfolding first_rule declines parse_target split_target check_address default_scheme valid_port
    loopback is_loopback normalize_domain valid_domain valid_label validate_rule validate_rules
    validate_rules_from claim_domains check_domains check_prefixes check_remote normalize_host
    new_router add_rules add_hosts matches router_lookup intercepts rewrite request_rule redirected
    lower_byte is_space trim_left trim_right is_loopback_ip cut_last trim_space trim_last has_prefix
    split contains_any cut_scheme is_digit has_byte lookup insert parse_int parse_digits parse_ip
    split_host_port text_eq
program = tt

rules_valid : validate_rules rules false ≡ none
unfolding program
rules_valid = refl

-- The same domain in another case and with a dot.
repeated :
    validate_rules (mirror ∷ record other { domains = codes "CDN.Example.COM." ∷ [] } ∷ []) false
    ≡ some (duplicate_domain 1 (codes "CDN.Example.COM."))
unfolding program
repeated = refl

abbrev router : Router
router = record {
  hosts =
      (codes "mirror.example.com", mirror_rule)
      ∷ (codes "cdn.example.com", mirror_rule)
      ∷ (
        codes "api.example.org",
        record {
          scheme = codes "https";
          target = codes "localhost:443";
          include = codes "/" ∷ [];
          exclude = [];
        },
      )
      ∷ [];
}

router_built : new_router rules ≡ some router
unfolding program
router_built = refl

abbrev cdn_url : Url
cdn_url = url_of (codes "CDN.example.com:443") (codes "/pub/a")

abbrev www_url : Url
www_url = url_of (codes "www.example.com") (codes "/pub/a")

routed : (rewrite router (get_request cdn_url) cdn_url).1 ≡ true
unfolding program
routed = refl

excluded : matches (codes "/pub/private/a") mirror_rule ≡ false
unfolding program
excluded = refl

no_rule :
    declines
      (prefer
        (first_rule (normalize_host (codes "www.example.com")) rules)
        (first_rule (normalize_host []) rules))
      (codes "/pub/a")
    ≡ true
unfolding program
no_rule = refl

validate_rules-AllDistinct_example :
    AllDistinct (all_keys rules) × All (λ r. validate_rule r false ≡ none) rules
validate_rules-AllDistinct_example = validate_rules-AllDistinct false rules rules_valid

cdn-IsName : IsName (codes "cdn.example.com")
unfolding program
cdn-IsName = record {
  plain = record { no_colon = refl; no_open = refl; no_close = refl };
  lower = refl;
  no_space = (
    refl,
    (
      refl,
      (
        refl,
        (
          refl,
          (
            refl,
            (refl, (refl, (refl, (refl, (refl, (refl, (refl, (refl, (refl, (refl, tt)))))))))),
          ),
        ),
      ),
    ),
  );
  no_dot = refl;
}

cdn-Spells : Spells (codes "cdn.example.com") (codes "CDN.example.com:443")
unfolding program
cdn-Spells = record {
  cased = codes "CDN.example.com";
  same = refl;
  dotted = false;
  port = some (codes "443");
  digits = (refl, (refl, (refl, tt)));
  spelled = refl;
}

router_lookup-first_rule_example :
    (router_lookup router (codes "CDN.example.com:443") (codes "/pub/a")
      ≡ elim (first_rule (codes "cdn.example.com") rules) [
        | none ↦ none
        | some rule ↦ some (rule, matches (codes "/pub/a") rule)
      ])
    × (intercepts router (codes "CDN.example.com:443")
        ≡ is_some (first_rule (codes "cdn.example.com") rules))
router_lookup-first_rule_example =
    router_lookup-first_rule rules router router_built (codes "cdn.example.com")
      (codes "CDN.example.com:443") (codes "/pub/a") cdn-IsName cdn-Spells

rewrite_routed_example :
    (rule : Rule) × FirstRule rules (get_request cdn_url) cdn_url rule
    × (matches cdn_url.path rule ≡ true)
    × ((rewrite router (get_request cdn_url) cdn_url).0.url
        ≡ some (record cdn_url { scheme = rule.scheme; host = rule.target }))
    × ((rewrite router (get_request cdn_url) cdn_url).0.method ≡ codes "GET")
    × ((rewrite router (get_request cdn_url) cdn_url).0.header ≡ [])
    × ((rewrite router (get_request cdn_url) cdn_url).0.host
        ≡ (if text_eq [] [] then cdn_url.host else []))
rewrite_routed_example =
    rewrite_routed rules router router_built (get_request cdn_url) cdn_url routed

rewrite_not_routed_example :
    rewrite router (get_request www_url) www_url ≡ (get_request www_url, false)
rewrite_not_routed_example =
    rewrite_not_routed rules router router_built (get_request www_url) www_url no_rule

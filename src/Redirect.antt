-- ===== src/Redirect.antt =====
-- The router of internal/redirect/redirect.go.
pub mod Routing
pub mod Prefixes
pub mod Spelling
use hamsterd.Common.{
  ℕ, Bool, true, false, Option, none, some, List, [], ◌∷◌, Text, codes, text_eq, not, ◌&&◌, any,
  if◌then◌else◌, is_some,
}
use hamsterd.Common.Dict.{Dict, lookup, insert}
use hamsterd.Common.Strings.{to_lower, trim_space, trim_last, has_prefix}
use hamsterd.Common.Net.{split_host_port}
use hamsterd.Common.Http.{Url, Request}
use hamsterd.Config.Target.{Target, parse_target}
use hamsterd.Config.Rule.{RedirectRule}

pub record Rule : Type 0 where
  pub scheme : Text
  pub target : Text
  pub include : List Text
  pub exclude : List Text

pub record Router : Type 0 where
  pub hosts : Dict Rule

unfoldable pub normalize_host : Text → Text
normalize_host raw =
    let host_port = trim_last b'.' (to_lower (trim_space raw)) in
    elim (split_host_port host_port) [
      | none ↦ host_port
      | some (host, _) ↦ trim_last b'.' (to_lower host)
    ]

-- The inner loop of `New`; `none` is the error of a repeated domain.
unfoldable pub add_hosts : Rule → List Text → Dict Rule → Option (Dict Rule)
add_hosts rule [] hosts = some hosts
add_hosts rule (domain ∷ domains) hosts =
    let host = normalize_host domain in
    let rest = add_hosts rule domains (insert host rule hosts) in
    if is_some (lookup host hosts) then none else rest

abbrev pub rule_of : Target → RedirectRule → Rule
rule_of target source = record {
  scheme = target.scheme;
  target = target.address;
  include = source.include;
  exclude = source.exclude;
}

unfoldable pub add_rules : List RedirectRule → Dict Rule → Option (Dict Rule)
add_rules [] hosts = some hosts
add_rules (source ∷ rules) hosts = elim (parse_target source.target) [
  | none ↦ none
  | some target ↦ elim (add_hosts (rule_of target source) source.domains hosts) [
    | none ↦ none
    | some hosts' ↦ add_rules rules hosts'
  ]
]

-- `New`, with its errors as `none`.
unfoldable pub new_router : List RedirectRule → Option Router
new_router rules = elim (add_rules rules []) [
  | none ↦ none
  | some hosts ↦ some (record { hosts = hosts })
]

unfoldable pub matches : Text → Rule → Bool
matches path rule =
    if any (has_prefix path) rule.exclude then false else any (has_prefix path) rule.include

-- What `Lookup` returns: the rule of an intercepted host, and whether the path is routed.
unfoldable pub router_lookup : Router → Text → Text → Option (Rule × Bool)
router_lookup r host_port path = elim (lookup (normalize_host host_port) r.hosts) [
  | none ↦ none
  | some rule ↦ some (rule, matches path rule)
]

unfoldable pub intercepts : Router → Text → Bool
intercepts r host_port = is_some (lookup (normalize_host host_port) r.hosts)

-- The rule that `Rewrite` looks up: by the URL's host, and else by the Host field.
unfoldable pub request_rule : Router → Request → Url → Option Rule
request_rule r request url = elim (lookup (normalize_host url.host) r.hosts) [
  | some rule ↦ some rule
  | none ↦ lookup (normalize_host request.host) r.hosts
]

-- The request that `Rewrite` sends to the target.
unfoldable pub redirected : Rule → Request → Url → Request
redirected rule request url = record request {
  url = some (record url { scheme = rule.scheme; host = rule.target });
  host = if text_eq request.host [] then url.host else request.host;
}

-- `Rewrite` of a request with the given URL.
unfoldable pub rewrite : Router → Request → Url → Request × Bool
rewrite r request url = elim (request_rule r request url) [
  | none ↦ (request, false)
  | some rule ↦
      if matches url.path rule then (redirected rule request url, true) else (request, false)
]

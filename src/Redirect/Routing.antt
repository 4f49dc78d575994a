-- ===== src/Redirect/Routing.antt =====
-- What the router of internal/redirect/redirect.go does with a host and a path.
use hamsterd.Common.{
  Bool, true, false, Option, none, some, List, [], ◌∷◌, Text, text_eq, text_eq_iff, ◌≡◌, sym, ◌∙◌,
  arith, any, if◌then◌else◌, is_some, Option-cases, Bool-cases, inl, inr, not,
}
use hamsterd.Common.Dict.{Dict, lookup, insert, lookup-insert}
use hamsterd.Common.Http.{Url, Request}
use hamsterd.Config.Target.{parse_target}
use hamsterd.Config.Rule.{RedirectRule}
use hamsterd.Redirect.Spelling.{IsName, Spells, normalize_host-Spells}
use hamsterd.Redirect.{
  Rule, Router, normalize_host, add_hosts, rule_of, add_rules, new_router, matches, router_lookup,
  intercepts, request_rule, redirected, rewrite,
}

abbrev pub lists_host : Text → List Text → Bool
lists_host host domains = any (λ d. text_eq (normalize_host d) host) domains

-- The specification: the first rule that lists the host, with its parsed target.
unfoldable pub first_rule : Text → List RedirectRule → Option Rule
first_rule host [] = none
first_rule host (source ∷ rules) =
    let rest = first_rule host rules in
    if lists_host host source.domains
    then elim (parse_target source.target) [
      | none ↦ none
      | some target ↦ some (rule_of target source)
    ]
    else rest

module _ (rule : Rule) (host : Text) where
  add_hosts-absent :
      (ds : List Text) (hosts hosts' : Dict Rule)
      → add_hosts rule ds hosts ≡ some hosts'
      → lists_host host ds ≡ true
      → lookup host hosts ≡ none
  unfolding add_hosts
  add_hosts-absent [] hosts hosts' e h = absurd (cc)
  add_hosts-absent (d ∷ ds) hosts hosts' e h = ground (
    arith,
    add_hosts-absent ds (insert (normalize_host d) rule hosts) hosts',
    lookup-insert (normalize_host d) host rule hosts,
    text_eq_iff (normalize_host d) host,
  )

  lookup-add_hosts :
      (ds : List Text) (hosts hosts' : Dict Rule)
      → add_hosts rule ds hosts ≡ some hosts'
      → lookup host hosts' ≡ (if lists_host host ds then some rule else lookup host hosts)
  unfolding add_hosts
  lookup-add_hosts [] hosts hosts' e = ground arith
  lookup-add_hosts (d ∷ ds) hosts hosts' e = ground (
    arith,
    lookup-add_hosts ds (insert (normalize_host d) rule hosts) hosts',
    lookup-insert (normalize_host d) host rule hosts,
    text_eq_iff (normalize_host d) host,
  )

-- The first value that is there.
abbrev pub prefer : Option Rule → Option Rule → Option Rule
prefer (some rule) other = some rule
prefer none other = other

-- Whether the rule, if there is one, does not match the path.
unfoldable pub declines : Option Rule → Text → Bool
declines none path = true
declines (some rule) path = not (matches path rule)

lookup-add_rules :
    (host : Text) (rules : List RedirectRule) (hosts hosts' : Dict Rule)
    → add_rules rules hosts ≡ some hosts'
    → lookup host hosts' ≡ prefer (lookup host hosts) (first_rule host rules)
unfolding add_rules first_rule
lookup-add_rules host [] hosts hosts' e = ground arith
lookup-add_rules host (source ∷ rules) hosts hosts' e =
    elim (Option-cases (parse_target source.target)) [
      | inl bad ↦ absurd (ground arith)
      | inr (t, parsed) ↦ elim (Option-cases (add_hosts (rule_of t source) source.domains hosts)) [
        | inl twice ↦ absurd (ground arith)
        | inr (h, added) ↦ ground (
          arith,
          lookup-add_rules host rules h hosts',
          lookup-add_hosts (rule_of t source) host source.domains hosts h added,
          add_hosts-absent (rule_of t source) host source.domains hosts h added,
        )
      ]
    ]

-- The rule is the first one that lists the host of the URL, or else the Host field.
abbrev pub FirstRule : List RedirectRule → Request → Url → Rule → Type 0
FirstRule rules request url rule =
    prefer (first_rule (normalize_host url.host) rules)
      (first_rule (normalize_host request.host) rules)
    ≡ some rule

module _ (rules : List RedirectRule) (r : Router) (built : new_router rules ≡ some r) where
  lookup-hosts : (host : Text) → lookup host r.hosts ≡ first_rule host rules
  unfolding new_router lookup
  lookup-hosts host = elim (Option-cases (add_rules rules [])) [
    | inl failed ↦ absurd (ground arith)
    | inr (hosts, added) ↦ ground (arith, lookup-add_rules host rules [] hosts added)
  ]

  -- For a name in lower case without colon, bracket, white space or a dot at the end, and for each
  -- of its spellings, in any case, with or without a dot and a port of digits behind it: the router
  -- answers by the first configured rule with a domain that is normalised to the name. The host is
  -- intercepted exactly if there is one, and the path is routed by that rule.
  pub router_lookup-first_rule :
      (name host_port path : Text)
      → IsName name
      → Spells name host_port
      → (router_lookup r host_port path ≡ elim (first_rule name rules) [
        | none ↦ none
        | some rule ↦ some (rule, matches path rule)
      ])
        × (intercepts r host_port ≡ is_some (first_rule name rules))
  unfolding router_lookup intercepts
  router_lookup-first_rule name host_port path valid spelled =
      let n = normalize_host-Spells name valid host_port spelled in
      let e = lookup-hosts name in (rw (n, e, router_lookup), rw (n, e, intercepts))

  request_rule-prefer :
      (request : Request) (url : Url)
      → request_rule r request url
        ≡ prefer
            (first_rule (normalize_host url.host) rules)
            (first_rule (normalize_host request.host) rules)
  unfolding request_rule
  request_rule-prefer request url =
      ground
        (arith, lookup-hosts (normalize_host url.host), lookup-hosts (normalize_host request.host))

  -- A request that `Rewrite` routes goes to the target of the first rule that lists the host of its
  -- URL, or else its Host field, and whose prefixes match the path; its method, header, path and
  -- query stay, and so does a Host field that is set, which is otherwise the old host of the URL.
  pub rewrite_routed :
      (request : Request) (url : Url)
      → (rewrite r request url).1 ≡ true
      → (rule : Rule) × FirstRule rules request url rule
        × (matches url.path rule ≡ true)
        × ((rewrite r request url).0.url
            ≡ some (record url { scheme = rule.scheme; host = rule.target }))
        × ((rewrite r request url).0.method ≡ request.method)
        × ((rewrite r request url).0.header ≡ request.header)
        × ((rewrite r request url).0.host
            ≡ (if text_eq request.host [] then url.host else request.host))
  unfolding rewrite redirected
  rewrite_routed request url h = elim (Option-cases (request_rule r request url)) [
    | inl nobody ↦ let clash : false ≡ true = rw (nobody, rewrite) at h in absurd (cc)
    | inr (rule, found) ↦ elim (Bool-cases (matches url.path rule)) [
      | inr other ↦ let clash : false ≡ true = rw (found, other, rewrite) at h in absurd (cc)
      | inl fits ↦ (
        rule,
        sym (request_rule-prefer request url) ∙ found,
        fits,
        rw (found, fits, rewrite),
        rw (found, fits, rewrite),
        rw (found, fits, rewrite),
        rw (found, fits, rewrite),
      )
    ]
  ]

  -- If no rule lists the host of the URL or the Host field, or the first one that does has no
  -- prefix for the path or excludes it, `Rewrite` answers no and leaves the request as it is.
  pub rewrite_not_routed :
      (request : Request) (url : Url)
      → declines
          (prefer
            (first_rule (normalize_host url.host) rules)
            (first_rule (normalize_host request.host) rules))
          url.path
        ≡ true
      → rewrite r request url ≡ (request, false)
  unfolding rewrite declines
  rewrite_not_routed request url h = elim (Option-cases (request_rule r request url)) [
    | inl nobody ↦ rw (nobody, rewrite)
    | inr (rule, found) ↦
        let other : declines (some rule) url.path ≡ true =
          rw (sym (request_rule-prefer request url) ∙ found) at h in
        rw (found, rewrite) (ground (arith, other))
  ]

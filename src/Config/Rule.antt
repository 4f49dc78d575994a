-- ===== src/Config/Rule.antt =====
-- Routing rules of internal/config: `ValidateRule` of config.go and `ValidateRules` of auto.go.
pub mod Distinct
use hamsterd.Common.{
  ℕ, suc, ◌+◌, Bool, true, false, Option, none, some, List, [], ◌∷◌, ◌++◌, Text, codes, text_eq,
  not, ◌&&◌, ◌||◌, all, if◌then◌else◌, is_some,
}
use hamsterd.Common.Dict.{Dict, lookup, insert}
use hamsterd.Common.Strings.{has_prefix}
use hamsterd.Config.Target.{Target, parse_target, loopback, normalize_domain, valid_domain}

pub record RedirectRule : Type 0 where
  pub target : Text
  pub domains : List Text
  pub include : List Text
  pub exclude : List Text

-- The errors of the two functions, in the order in which they are tested.
pub data RuleError : Type 0 where
  no_domains no_includes bad_target not_loopback plaintext_remote : RuleError
  bad_domain bad_prefix : Text → RuleError
  -- of `ValidateRules`: the position of the rule
  in_rule : ℕ → RuleError → RuleError
  duplicate_domain : ℕ → Text → RuleError

-- The first domain that is refused.
unfoldable pub check_domains : List Text → Option RuleError
check_domains [] = none
check_domains (domain ∷ domains) =
    let rest = check_domains domains in
    if not (valid_domain (normalize_domain domain)) then some (bad_domain domain) else rest

unfoldable pub check_prefixes : List Text → Option RuleError
check_prefixes [] = none
check_prefixes (prefix ∷ prefixes) =
    let rest = check_prefixes prefixes in
    if not (has_prefix prefix (codes "/")) then some (bad_prefix prefix) else rest

unfoldable pub check_remote : Target → Bool → Option RuleError
check_remote target allow_remote =
    if loopback target
    then none
    else if not allow_remote
    then some not_loopback
    else if text_eq target.scheme (codes "http") && not target.explicit
    then some plaintext_remote
    else none

infixl 5 ◌or_else◌
abbrev pub ◌or_else◌ : Option RuleError → Option RuleError → Option RuleError
none or_else e = e
some e or_else _ = some e

abbrev pub is_empty : List Text → Bool
is_empty [] = true
is_empty (t ∷ ts) = false

-- `none` means that the rule is valid.
unfoldable pub validate_rule : RedirectRule → Bool → Option RuleError
validate_rule rule allow_remote =
    if is_empty rule.domains
    then some no_domains
    else if is_empty rule.include
    then some no_includes
    else elim (parse_target rule.target) [
      | none ↦ some bad_target
      | some target ↦
          check_remote target allow_remote
          or_else check_domains rule.domains
          or_else check_prefixes (rule.include ++ rule.exclude)
    ]

abbrev pub Seen : Type 0
Seen = Dict (Unit {0})

-- The inner loop of `ValidateRules`; the error is the repeated domain.
unfoldable pub claim_domains : List Text → Seen → Seen × Option Text
claim_domains [] seen = (seen, none)
claim_domains (domain ∷ domains) seen =
    let key = normalize_domain domain in
    let rest = claim_domains domains (insert key tt seen) in
    if is_some (lookup key seen) then (seen, some domain) else rest

unfoldable pub validate_rules_from : ℕ → Seen → List RedirectRule → Bool → Option RuleError
validate_rules_from i seen [] allow_remote = none
validate_rules_from i seen (rule ∷ rules) allow_remote = elim (validate_rule rule allow_remote) [
  | some e ↦ some (in_rule i e)
  | none ↦
      let (seen', repeated) = claim_domains rule.domains seen in
      elim repeated [
        | some domain ↦ some (duplicate_domain i domain)
        | none ↦ validate_rules_from (suc i) seen' rules allow_remote
      ]
]

unfoldable pub validate_rules : List RedirectRule → Bool → Option RuleError
validate_rules rules allow_remote = validate_rules_from 0 [] rules allow_remote

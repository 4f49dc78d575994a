-- ===== src/Lemming/Service.antt =====
-- `Service` of internal/lemming/service.go: the effective rules, the router and the trust list
-- that follow them, and the changes that the control API makes.
pub mod Invariant
pub mod Restart
pub mod SameRules
pub mod Absorbed
pub mod Runs
use hamsterd.Common.{
  ℕ, zero, suc, Bool, true, false, Option, none, some, List, [], ◌∷◌, ◌++◌, Text, text_eq, not,
  ◌&&◌, ◌||◌, ltb, length, any, if◌then◌else◌, map, is_some,
}
use hamsterd.Common.Strings.{to_lower, trim_space}
use hamsterd.Common.Dict.{Dict}
use hamsterd.Config.Target.{normalize_domain}
use hamsterd.Config.Rule.{RedirectRule, RuleError, validate_rule, validate_rules}
use hamsterd.Config.Settings.{Config}
use hamsterd.Config.Files.{File}
use hamsterd.Config.AutoRules.{
  max_auto_rules, ConfigCodec, Files, FileFaults, load_auto_rules, write_auto_rules, MergeError,
  MergeResult, merge_failed, merged, refused, merge_auto_rules,
}
use hamsterd.Proxycore.Trust.{TrustSets, trust_set}
use hamsterd.Redirect.{Rule, Router, new_router}

-- `Targets` without the order of the result, and `Domains`.
unfoldable pub router_targets : Dict Rule → List Text
router_targets [] = []
router_targets ((_, rule) ∷ hosts) =
    let rest = router_targets hosts in
    if any (text_eq rule.target) rest then rest else rule.target ∷ rest

unfoldable pub router_domains : Dict Rule → List Text
router_domains [] = []
router_domains ((host, _) ∷ hosts) = host ∷ router_domains hosts

pub record Service : Type 0 where
  pub allow_remote : Bool
  pub base : List RedirectRule
  pub auto : List RedirectRule
  pub router : Router
  pub trusted : TrustSets
  -- whether rules.auto.json was skipped at the start
  pub auto_err : Bool

unfoldable pub build_all : Bool → List RedirectRule → Option Router
build_all allow_remote all = elim (validate_rules all allow_remote) [
  | some e ↦ none
  | none ↦ new_router all
]

-- `build`, with its errors as `none`.
unfoldable pub build : Bool → List RedirectRule → List RedirectRule → Option Router
build allow_remote base auto = build_all allow_remote (base ++ auto)

-- The trust lists that `install` stores, one after the other: with the old and the new entries,
-- and then with the new ones.
unfoldable pub install_trust : Router → Router → TrustSets × TrustSets
install_trust old new = (
  trust_set (router_targets old.hosts ++ router_targets new.hosts)
      (router_domains old.hosts ++ router_domains new.hosts),
  trust_set (router_targets new.hosts) (router_domains new.hosts),
)

unfoldable pub install : Router → Service → Service
install new s = record s { router = new; trusted = (install_trust s.router new).1 }

unfoldable pub new_service_with :
    Bool → List RedirectRule → List RedirectRule → Bool → Option Service
new_service_with allow_remote base auto skipped = elim (build allow_remote base auto) [
  | none ↦ none
  | some router ↦ some (record {
    allow_remote = allow_remote;
    base = base;
    auto = auto;
    router = router;
    trusted = trust_set (router_targets router.hosts) (router_domains router.hosts);
    auto_err = skipped;
  })
]

-- `New`: rules.auto.json is skipped if it cannot be loaded or does not fit the configuration.
unfoldable pub new_service : ConfigCodec → FileFaults → Config → Files → Option Service
new_service codec faults cfg files =
    let without = new_service_with cfg.allow_remote_targets cfg.rules [] true in
    elim (load_auto_rules codec faults files) [
      | none ↦ without
      | some auto ↦ elim (new_service_with cfg.allow_remote_targets cfg.rules auto false) [
        | some s ↦ some s
        | none ↦ without
      ]
    ]

unfoldable pub rule_lists : Text → RedirectRule → Bool
rule_lists domain rule = any (λ d. text_eq (normalize_domain d) domain) rule.domains

unfoldable pub index_from : ℕ → Text → List RedirectRule → Option ℕ
index_from i domain [] = none
index_from i domain (rule ∷ rules) =
    let rest = index_from (suc i) domain rules in if rule_lists domain rule then some i else rest

-- `indexOfDomain`, with -1 as `none`.
unfoldable pub index_of_domain : List RedirectRule → Text → Option ℕ
index_of_domain rules domain = index_from 0 (normalize_domain domain) rules

-- What a change answers.
pub data Change : Type 0 where
  -- refused while rules.auto.json is skipped: a conflictError
  skipped : Change
  too_many : Change
  invalid : RuleError → Change
  taken : Text → Change
  not_built : Change
  -- rules.auto.json could not be written: `AddRule` marks this error as a storageError
  storage_error : Change
  no_domain config_rule no_rule : Change
  done : RedirectRule → Change

-- The first domain of the new rule that another rule routes.
unfoldable pub taken_domain : List RedirectRule → List RedirectRule → List Text → Option Text
taken_domain base auto [] = none
taken_domain base auto (domain ∷ domains) =
    let rest = taken_domain base auto domains in
    if is_some (index_of_domain base domain) || is_some (index_of_domain auto domain)
    then some domain
    else rest

-- The end of `AddRule` and `RemoveRule`: build, save, install.
unfoldable pub change_auto :
    ConfigCodec
    → FileFaults
    → List RedirectRule
    → RedirectRule
    → Service
    → Files
    → Service × Files × Change
change_auto codec faults auto rule s files = elim (build s.allow_remote s.base auto) [
  | none ↦ (s, files, not_built)
  | some router ↦
      let (file, saved) = write_auto_rules codec faults auto files.auto in
      let files' : Files = record files { auto = file } in
      if not saved
      then (s, files', storage_error)
      else (record (install router s) { auto = auto }, files', done rule)
]

unfoldable pub add_rule :
    ConfigCodec → FileFaults → RedirectRule → Service → Files → Service × Files × Change
add_rule codec faults rule s files =
    if s.auto_err
    then (s, files, skipped)
    else if not (ltb (length s.auto) max_auto_rules)
    then (s, files, too_many)
    else elim (validate_rule rule s.allow_remote) [
      | some e ↦ (s, files, invalid e)
      | none ↦ elim (taken_domain s.base s.auto rule.domains) [
        | some domain ↦ (s, files, taken domain)
        | none ↦ change_auto codec faults (s.auto ++ rule ∷ []) rule s files
      ]
    ]

-- slices.Delete of one element, with the element.
unfoldable pub delete_at : List RedirectRule → ℕ → Option (RedirectRule × List RedirectRule)
delete_at [] i = none
delete_at (rule ∷ rules) zero = some (rule, rules)
delete_at (rule ∷ rules) (suc i) = elim (delete_at rules i) [
  | none ↦ none
  | some (removed, rest) ↦ some (removed, rule ∷ rest)
]

unfoldable pub remove_auto_rule :
    ConfigCodec → FileFaults → Text → Service → Files → Service × Files × Change
remove_auto_rule codec faults domain s files = elim (index_of_domain s.auto domain) [
  | none ↦ (s, files, no_rule)
  | some i ↦ elim (delete_at s.auto i) [
    | none ↦ (s, files, no_rule)
    | some (removed, auto) ↦ change_auto codec faults auto removed s files
  ]
]

unfoldable pub remove_rule :
    ConfigCodec → FileFaults → Text → Service → Files → Service × Files × Change
remove_rule codec faults domain s files =
    if text_eq (trim_space domain) []
    then (s, files, no_domain)
    else if s.auto_err
    then (s, files, skipped)
    else if is_some (index_of_domain s.base domain)
    then (s, files, config_rule)
    else remove_auto_rule codec faults domain s files

abbrev pub texts_eq : List Text → List Text → Bool
texts_eq [] [] = true
texts_eq (a ∷ as') (b ∷ bs) = text_eq a b && texts_eq as' bs
texts_eq _ _ = false

unfoldable pub same_rule : RedirectRule → RedirectRule → Bool
same_rule a b =
    text_eq a.target b.target
    && (texts_eq a.domains b.domains
        && (texts_eq a.include b.include && texts_eq a.exclude b.exclude))

-- slices.EqualFunc
unfoldable pub same_rules : List RedirectRule → List RedirectRule → Bool
same_rules [] [] = true
same_rules (a ∷ as') (b ∷ bs) = same_rule a b && same_rules as' bs
same_rules _ _ = false

-- What `Merge` does with the answer of `MergeAutoRules`.
unfoldable pub after_merge : Service → Files → MergeResult → Service × Files × Option MergeResult
after_merge s files (merge_failed e) = (s, files, some (merge_failed e))
after_merge s files (merged n) =
    (record s { base = s.base ++ s.auto; auto = [] }, files, some (merged n))

-- `Merge`; `none` is the refusal while rules.auto.json is skipped.
unfoldable pub merge :
    ConfigCodec → FileFaults → Service → Files → Service × Files × Option MergeResult
merge codec faults s files =
    let (files', result) =
      merge_auto_rules codec faults (λ on_disk. same_rules on_disk.rules s.base) files in
    if s.auto_err then (s, files, none) else after_merge s files' result

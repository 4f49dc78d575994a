-- ===== src/Lemming/Service/Absorbed.antt =====
-- `Merge` of internal/lemming/service.go where rules.auto.json is gone.
use hamsterd.Common.{
  ℕ, suc, ◌≡◌, true, false, some, List, [], ◌∷◌, ◌++◌, Text, text_eq, is_some, arith,
}
use hamsterd.Common.Strings.{trim_space}
use hamsterd.Config.Target.{normalize_domain}
use hamsterd.Config.Rule.{RedirectRule}
use hamsterd.Config.AutoRules.{ConfigCodec, Files, FileFaults, load_auto_rules, merge_auto_rules}
use hamsterd.Lemming.Service.{
  Service, index_from, index_of_domain, config_rule, remove_rule, merge, after_merge,
}

is_some-index_from :
    (i j : ℕ) (domain : Text) (ys : List RedirectRule)
    → is_some (index_from j domain ys) ≡ true
    → is_some (index_from i domain ys) ≡ true
unfolding index_from
is_some-index_from i j domain [] h = h
is_some-index_from i j domain (y ∷ ys) h =
    ground (arith, is_some-index_from (suc i) (suc j) domain ys)

is_some-index_from-append :
    (i j : ℕ) (domain : Text) (xs ys : List RedirectRule)
    → is_some (index_from j domain ys) ≡ true
    → is_some (index_from i domain (xs ++ ys)) ≡ true
unfolding index_from
is_some-index_from-append i j domain [] ys h = is_some-index_from i j domain ys h
is_some-index_from-append i j domain (x ∷ xs) ys h =
    ground (arith, is_some-index_from-append (suc i) j domain xs ys)

-- If rules.auto.json is gone or empty when `Merge` runs, `Merge` leaves all files as they are, and
-- yet `RemoveRule` then refuses every domain of an automatic rule as one of config.json.
pub merge-absorbs :
    (codec : ConfigCodec) (faults : FileFaults) (s : Service) (files : Files) (domain : Text)
    → s.auto_err ≡ false
    → load_auto_rules codec faults files ≡ some []
    → text_eq (trim_space domain) [] ≡ false
    → is_some (index_of_domain s.auto domain) ≡ true
    → ((merge codec faults s files).1 ≡ files)
      × ((remove_rule codec faults domain (merge codec faults s files).0 files).2 ≡ config_rule)
unfolding merge merge_auto_rules after_merge remove_rule index_of_domain
merge-absorbs codec faults s files domain loaded gone named known =
    let found = is_some-index_from-append 0 0 (normalize_domain domain) s.base s.auto known in
    ground (arith, loaded, gone, named, found)

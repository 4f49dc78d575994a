-- ===== src/Lemming/Service/Invariant.antt =====
-- What every change of the rules keeps: the router and the trust list follow the effective rules of
-- internal/lemming/service.go.
use hamsterd.Common.{
  Bool, false, Option, none, some, List, [], ◌∷◌, ◌++◌, Text, ◌≡◌, refl, ◌∙◌, ap, if_cases,
  Option-cases, inl, inr, arith, not, ltb, length, is_some, text_eq,
}
use mathlib.Core.List.{append-nil}
use hamsterd.Common.Strings.{trim_space}
use hamsterd.Config.Rule.{RedirectRule, validate_rule}
use hamsterd.Config.Settings.{Config}
use hamsterd.Config.AutoRules.{
  max_auto_rules, ConfigCodec, Files, FileFaults, load_auto_rules, write_auto_rules, MergeResult,
  merge_failed, merged,
}
use hamsterd.Proxycore.Trust.{trust_set}
use hamsterd.Lemming.Service.{
  Service, router_targets, router_domains, build, build_all, install, install_trust,
  new_service_with, new_service, index_of_domain, Change, taken_domain, change_auto, add_rule,
  delete_at, remove_auto_rule, remove_rule, merge, after_merge,
}

pub record IsConsistent (s : Service) : Type 0 where
  pub built : build s.allow_remote s.base s.auto ≡ some s.router
  pub trusts : s.trusted ≡ trust_set (router_targets s.router.hosts) (router_domains s.router.hosts)

module _ (codec : ConfigCodec) (faults : FileFaults) where
  change_auto-IsConsistent :
      (auto : List RedirectRule) (rule : RedirectRule) (s : Service) (files : Files)
      → IsConsistent s
      → IsConsistent (change_auto codec faults auto rule s files).0
  unfolding change_auto install install_trust
  change_auto-IsConsistent auto rule s files c =
      elim (Option-cases (build s.allow_remote s.base auto)) [
        | inl failed ↦ rw (failed, change_auto) c
        | inr (router, ok) ↦
            rw (ok, change_auto)
              (if_cases (λ (r : Service × Files × Change). IsConsistent r.0)
                (not (write_auto_rules codec faults auto files.auto).1) (λ _. c)
                λ _. record { built = ok; trusts = refl })
      ]

  -- `AddRule` keeps the router and the trust list in step with the rules, on every branch.
  pub add_rule-IsConsistent :
      (rule : RedirectRule) (s : Service) (files : Files)
      → IsConsistent s
      → IsConsistent (add_rule codec faults rule s files).0
  unfolding add_rule
  add_rule-IsConsistent rule s files c =
      let P = λ (r : Service × Files × Change). IsConsistent r.0 in
      if_cases P s.auto_err (λ _. c)
        λ _.
          if_cases P (not (ltb (length s.auto) max_auto_rules)) (λ _. c)
            λ _. elim (Option-cases (validate_rule rule s.allow_remote)) [
              | inr (e, bad) ↦ rw bad c
              | inl good ↦ rw good (elim (Option-cases (taken_domain s.base s.auto rule.domains)) [
                | inr (d, old) ↦ rw old c
                | inl free ↦ rw free (change_auto-IsConsistent (s.auto ++ rule ∷ []) rule s files c)
              ])
            ]

  remove_auto_rule-IsConsistent :
      (domain : Text) (s : Service) (files : Files)
      → IsConsistent s
      → IsConsistent (remove_auto_rule codec faults domain s files).0
  unfolding remove_auto_rule
  remove_auto_rule-IsConsistent domain s files c =
      elim (Option-cases (index_of_domain s.auto domain)) [
        | inl nobody ↦ rw (nobody, remove_auto_rule) c
        | inr (i, found) ↦ elim (Option-cases (delete_at s.auto i)) [
          | inl outside ↦ rw (found, remove_auto_rule, outside) c
          | inr ((removed, auto), split) ↦
              rw (found, remove_auto_rule, split) (change_auto-IsConsistent auto removed s files c)
        ]
      ]

  -- `RemoveRule` keeps the router and the trust list in step with the rules, on every branch.
  pub remove_rule-IsConsistent :
      (domain : Text) (s : Service) (files : Files)
      → IsConsistent s
      → IsConsistent (remove_rule codec faults domain s files).0
  unfolding remove_rule
  remove_rule-IsConsistent domain s files c =
      let P = λ (r : Service × Files × Change). IsConsistent r.0 in
      if_cases P (text_eq (trim_space domain) []) (λ _. c)
        λ _.
          if_cases P s.auto_err (λ _. c)
            λ _.
              if_cases P (is_some (index_of_domain s.base domain)) (λ _. c)
                λ _. remove_auto_rule-IsConsistent domain s files c

  build-merged :
      (allow : Bool) (base auto : List RedirectRule)
      → build allow (base ++ auto) [] ≡ build allow base auto
  unfolding build
  build-merged allow base auto = ap (build_all allow) (append-nil (base ++ auto))

  after_merge-IsConsistent :
      (s : Service) (files : Files) (r : MergeResult)
      → IsConsistent s
      → IsConsistent (after_merge s files r).0
  unfolding after_merge
  after_merge-IsConsistent s files (merge_failed e) c = c
  after_merge-IsConsistent s files (merged n) c = record {
    built = build-merged s.allow_remote s.base s.auto ∙ c.built;
    trusts = c.trusts;
  }

  -- `Merge`, on every branch, keeps the router and the trust list in step with the rules.
  pub merge-IsConsistent :
      (s : Service) (files : Files) → IsConsistent s → IsConsistent (merge codec faults s files).0
  unfolding merge
  merge-IsConsistent s files c =
      if_cases (λ (r : Service × Files × Option MergeResult). IsConsistent r.0) s.auto_err (λ _. c)
        λ _. after_merge-IsConsistent s _ _ c

  new_service_with-IsConsistent :
      (allow : Bool) (base auto : List RedirectRule) (err : Bool) (s : Service)
      → new_service_with allow base auto err ≡ some s
      → IsConsistent s
  unfolding new_service_with
  new_service_with-IsConsistent allow base auto err s e =
      elim (Option-cases (build allow base auto)) [
        | inl failed ↦ let clash : none ≡ some s = rw (failed, new_service_with) at e in absurd (cc)
        | inr (router, ok) ↦ record { built = ground arith; trusts = ground arith }
      ]

  -- The service that `New` returns has a router built from its rules and the trust list of that
  -- router, whether rules.auto.json was loaded or skipped.
  pub new_service-IsConsistent :
      (cfg : Config) (files : Files) (s : Service)
      → new_service codec faults cfg files ≡ some s
      → IsConsistent s
  unfolding new_service
  new_service-IsConsistent cfg files s e =
      elim (Option-cases (load_auto_rules codec faults files)) [
        | inl bad ↦ new_service_with-IsConsistent _ _ _ _ s (rw (bad, new_service) at e)
        | inr (auto, loaded) ↦
            elim (Option-cases (new_service_with cfg.allow_remote_targets cfg.rules auto false)) [
              | inl unfit ↦
                  new_service_with-IsConsistent _ _ _ _ s (rw (loaded, unfit, new_service) at e)
              | inr (t, fits) ↦
                  let same : some t ≡ some s = rw (loaded, fits, new_service) at e in
                  new_service_with-IsConsistent _ _ _ _ s (fits ∙ same)
            ]
      ]

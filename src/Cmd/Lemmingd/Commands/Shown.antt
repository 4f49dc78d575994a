-- ===== src/Cmd/Lemmingd/Commands/Shown.antt =====
-- `showConfig` of cmd/lemmingd/commands.go and the service that starts with the same files.
use hamsterd.Common.{
  ◌≡◌, ◌∙◌, refl, ap, Bool, true, false, Option, none, some, List, [], ◌∷◌, ◌++◌, map, Text, arith,
  Option-cases, inl, inr,
}
use hamsterd.Config.Files.{File}
use hamsterd.Config.Rule.{RedirectRule, validate_rules}
use hamsterd.Config.Settings.{lemmingd_service, Config}
use hamsterd.Config.AutoRules.{ConfigCodec, Files, FileFaults, load_auto_rules}
use hamsterd.Config.Load.{LoadFaults, load_or_create}
use hamsterd.Lemming.Service.{Service, build, build_all, new_service_with, new_service}
use hamsterd.Lemming.Api.{RuleView, view, rules, source_config, source_auto}
use hamsterd.Cmd.Lemmingd.Commands.{
  Show, shown, show_failed, effective_config, show_rules, show_config,
}

-- A service that took the automatic rules.
record IsTakenWith (cfg : Config) (auto : List RedirectRule) (s : Service) : Type 0 where
  base : s.base ≡ cfg.rules
  auto_rules : s.auto ≡ auto
  valid : validate_rules (cfg.rules ++ auto) cfg.allow_remote_targets ≡ none

new_service_with-IsTakenWith :
    (cfg : Config) (auto : List RedirectRule) (s : Service)
    → new_service_with cfg.allow_remote_targets cfg.rules auto false ≡ some s
    → IsTakenWith cfg auto s
unfolding new_service_with build build_all
new_service_with-IsTakenWith cfg auto s run = record {
  base = ground (arith, run);
  auto_rules = ground (arith, run);
  valid = ground (arith, run);
}

auto_err_without :
    (allow : Bool) (base : List RedirectRule) (s : Service)
    → new_service_with allow base [] true ≡ some s
    → s.auto_err ≡ true
unfolding new_service_with
auto_err_without allow base s run = ground (arith, run)

new_service-IsTakenWith :
    (codec : ConfigCodec) (faults : FileFaults) (cfg : Config) (files : Files) (s : Service)
    → new_service codec faults cfg files ≡ some s
    → s.auto_err ≡ false
    → (auto : List RedirectRule) × (load_auto_rules codec faults files ≡ some auto)
      × IsTakenWith cfg auto s
unfolding new_service
new_service-IsTakenWith codec faults cfg files s run ok =
    elim (Option-cases (load_auto_rules codec faults files)) [
      | inl e ↦
          let skipped : s.auto_err ≡ true =
            auto_err_without cfg.allow_remote_targets cfg.rules s (ground (arith, e, run)) in
          absurd (ground (arith, skipped, ok))
      | inr (auto, e) ↦
          elim (Option-cases (new_service_with cfg.allow_remote_targets cfg.rules auto false)) [
            | inl f ↦
                let skipped : s.auto_err ≡ true =
                  auto_err_without cfg.allow_remote_targets cfg.rules s
                    (ground (arith, e, f, run)) in
                absurd (ground (arith, skipped, ok))
            | inr (t, f) ↦
                (auto, e, new_service_with-IsTakenWith cfg auto s (ground (arith, e, f, run)))
          ]
    ]

abbrev pub sources_of : List RuleView → List Text
sources_of [] = []
sources_of (v ∷ views) = v.source ∷ sources_of views

sources_of-view :
    (source : Text) (rs : List RedirectRule) (rest : List RuleView)
    → sources_of (map (view source) rs ++ rest) ≡ map (λ r. source) rs ++ sources_of rest
unfolding view
sources_of-view source [] rest = refl
sources_of-view source (r ∷ rs) rest = ap (λ l. source ∷ l) (sources_of-view source rs rest)

sources_of-view_nil :
    (source : Text) (rs : List RedirectRule)
    → sources_of (map (view source) rs) ≡ map (λ r. source) rs
unfolding view
sources_of-view_nil source [] = refl
sources_of-view_nil source (r ∷ rs) = ap (λ l. source ∷ l) (sources_of-view_nil source rs)

sources_of-rules :
    (s : Service)
    → sources_of (rules s) ≡ map (λ r. source_config) s.base ++ map (λ r. source_auto) s.auto
unfolding rules
sources_of-rules s =
    sources_of-view source_config s.base (map (view source_auto) s.auto)
    ∙ ap (λ l. map (λ r. source_config) s.base ++ l) (sources_of-view_nil source_auto s.auto)

-- What is shown of a service: its rules in its order, with where they come from, and whether there is a
-- warning.
abbrev pub Shows : Service → Bool → Show → Type 0
Shows s warned show_failed = ⊥
Shows s warned (shown e w) =
    (e.effective.rules ≡ s.base ++ s.auto)
    × ((e.rule_sources ≡ sources_of (rules s)) × (w ≡ warned))

Shows-effective :
    (cfg : Config) (auto : List RedirectRule) (s : Service)
    → IsTakenWith cfg auto s
    → Shows s false (show_rules true cfg (some auto))
unfolding show_rules effective_config
Shows-effective cfg auto s t = (
  rw (t.base, t.auto_rules) refl,
  (rw (sources_of-rules s, t.base, t.auto_rules) refl, rw t.valid refl),
)

-- If a lemmingd starts with the configuration that is loaded from the files and takes the automatic
-- rules without an error, then `lemmingd config show` at the same files, which it can read and encode,
-- shows exactly the rules of that lemmingd, in its order and with the sources that its control API
-- reports, and with no warning.
pub show_config-new_service :
    (codec : ConfigCodec) (load : LoadFaults) (faults : FileFaults) (files : Files)
    (file : Option File) (cfg : Config) (created : Bool) (s : Service)
    → load_or_create codec load lemmingd_service [] files.config ≡ (file, some (cfg, created))
    → new_service codec faults cfg files ≡ some s
    → s.auto_err ≡ false
    → Shows s false (show_config codec load faults true true files).1
unfolding show_config
show_config-new_service codec load faults files file cfg created s loaded run ok =
    let (auto, read, taken) = new_service-IsTakenWith codec faults cfg files s run ok in
    rw (show_config, loaded, read) (Shows-effective cfg auto s taken)

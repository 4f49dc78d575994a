-- ===== src/Tests/Restarts.antt =====
-- Restarts of lemmingd after runs of the service of internal/lemming.
use hamsterd.Common.{◌≤◌, is_some, ◌≡◌, refl, true, false, some, [], codes, length, arith, text_eq}
use hamsterd.Common.Strings.{trim_space}
use hamsterd.Config.Settings.{default_config}
use hamsterd.Config.AutoRules.{load_auto_rules}
use hamsterd.Lemming.Service.{
  config_rule, new_service, index_of_domain, add_rule, remove_rule, merge,
}
use hamsterd.Lemming.Service.Absorbed.{merge-absorbs}
use hamsterd.Lemming.Service.Restart.{add_rule-restart, remove_rule-restart}
use hamsterd.Tests.Changes.{
  codec, good_system, configuration, no_files, service, larger, larger_files, added,
  codec-ReadsBack, system-Readable, rule_added, rule_removed, program,
}

add_rule-restart_example :
    new_service codec good_system configuration
      (add_rule codec good_system added service no_files).1
    ≡ some (add_rule codec good_system added service no_files).0
unfolding default_config
add_rule-restart_example =
    add_rule-restart codec good_system system-Readable configuration service refl refl added added
      no_files (codec-ReadsBack _) rule_added

-- rules.auto.json is removed by hand.
files_gone : load_auto_rules codec good_system no_files ≡ some []
unfolding program
files_gone = refl

domain_named : text_eq (trim_space (codes "api.example.org")) [] ≡ false
unfolding program
domain_named = refl

domain_known : is_some (index_of_domain larger.auto (codes "api.example.org")) ≡ true
unfolding program
domain_known = refl

larger_loaded : larger.auto_err ≡ false
unfolding program
larger_loaded = refl

merge-absorbs_example :
    ((merge codec good_system larger no_files).1 ≡ no_files)
    × ((remove_rule codec good_system
          (codes "api.example.org")
          (merge codec good_system larger no_files).0
          no_files).2
        ≡ config_rule)
merge-absorbs_example =
    merge-absorbs codec good_system larger no_files (codes "api.example.org") larger_loaded
      files_gone domain_named domain_known

larger_base : configuration.rules ≡ larger.base
unfolding program
larger_base = refl

larger_remote : configuration.allow_remote_targets ≡ larger.allow_remote
unfolding program
larger_remote = refl

larger_short : length larger.auto ≤ 100
unfolding program
larger_short = omega arith

remove_rule-restart_example :
    new_service codec good_system configuration
      (remove_rule codec good_system (codes "API.example.org.") larger larger_files).1
    ≡ some (remove_rule codec good_system (codes "API.example.org.") larger larger_files).0
remove_rule-restart_example =
    remove_rule-restart codec good_system system-Readable configuration larger larger_base
      larger_remote (codes "API.example.org.") added larger_files (codec-ReadsBack _) larger_short
      rule_removed

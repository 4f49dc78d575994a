-- ===== src/Tests/Changes.antt =====
-- Runs of the service of internal/lemming.
use hamsterd.Common.{
  ◌≡◌, refl, ap, Bool, true, false, Option, none, some, List, [], ◌∷◌, ◌++◌, Text, codes, ◌&&◌,
  if◌then◌else◌, arith, text_eq, Bool-cases, inl, inr,
}
use hamsterd.Common.Int.{ℤ, pos, negsuc, eq_ℤ}
use hamsterd.Lemming.Service.SameRules.{same_rules→eq}
use hamsterd.Common.Strings.{
  lower_byte, is_space, trim_left, trim_right, cut_last, trim_space, trim_last, has_prefix, split,
  contains_any, cut_scheme, is_digit, has_byte,
}
use hamsterd.Common.Dict.{lookup, insert}
use hamsterd.Common.Numbers.{parse_int, parse_digits}
use hamsterd.Common.Ip.{parse_ip, is_loopback_ip}
use hamsterd.Common.Net.{split_host_port}
use hamsterd.Config.Target.{
  parse_target, split_target, check_address, default_scheme, valid_port, loopback, is_loopback,
  normalize_domain, valid_domain, valid_label,
}
use hamsterd.Config.Rule.{
  RedirectRule, validate_rule, validate_rules, validate_rules_from, claim_domains, check_domains,
  check_prefixes, check_remote,
}
use hamsterd.Config.Files.{ReadFaults, WriteFaults, read_private, check_private, write_file_atomic}
use hamsterd.Config.Settings.{Config, lemmingd_service, default_config}
use hamsterd.Config.AutoRules.{
  AutoRules, ConfigCodec, Files, FileFaults, load_auto_rules, check_auto, write_auto_rules,
  remove_auto,
}
use hamsterd.Redirect.{Router, normalize_host, new_router, add_rules, add_hosts}
use hamsterd.Proxycore.Trust.{trust_set}
use hamsterd.Lemming.Service.{
  Service, build, build_all, router_targets, router_domains, install, install_trust,
  new_service_with, new_service, rule_lists, index_from, index_of_domain, done, taken, taken_domain,
  change_auto, add_rule, delete_at, remove_auto_rule, remove_rule, same_rule, same_rules, merge,
  after_merge,
}
use hamsterd.Lemming.Service.Invariant.{IsConsistent}
use hamsterd.Lemming.Service.Runs.{Step, adds, here, next, Reach-IsConsistent}
use hamsterd.Lemming.Service.Restart.{ReadsBack, Readable}

abbrev mirror : RedirectRule
mirror = record {
  target = codes "http://127.0.0.1:9000";
  domains = codes "mirror.example.com" ∷ [];
  include = codes "/pub/" ∷ [];
  exclude = [];
}

abbrev pub added : RedirectRule
added = record {
  target = codes "localhost:443";
  domains = codes "api.example.org" ∷ [];
  include = codes "/" ∷ [];
  exclude = [];
}

abbrev document : AutoRules
document = record { version = pos 1; rules = added ∷ [] }

abbrev is_document : AutoRules → Bool
is_document file = eq_ℤ file.version (pos 1) && same_rules file.rules (added ∷ [])

abbrev encode_document : AutoRules → Option Text
encode_document file = if is_document file then some (codes "added") else none

abbrev decode_document : Text → Option AutoRules
decode_document text = if text_eq text (codes "added" ++ 10 ∷ []) then some document else none

-- A codec that knows one document.
abbrev pub codec : ConfigCodec
codec = record {
  encode_auto = encode_document;
  decode_auto = decode_document;
  encode_config = λ c. none;
  decode_config = λ text. none;
  unmarshal_rules = λ text. none;
  parse_duration = λ text. none;
}

is_one : (v : ℤ) → eq_ℤ v (pos 1) ≡ true → v ≡ pos 1
is_one (pos n) h = ground arith
is_one (negsuc n) h = absurd (ground arith)

is_document→eq : (file : AutoRules) → is_document file ≡ true → document ≡ file
is_document→eq file h = ground (arith, is_one file.version, same_rules→eq file.rules (added ∷ []))

pub codec-ReadsBack : (rules : List RedirectRule) → ReadsBack codec rules
unfolding text_eq
codec-ReadsBack rules text e =
    let file : AutoRules = record { version = pos 1; rules = rules } in
    elim (Bool-cases (is_document file)) [
      | inr other ↦ let clash : none ≡ some text = rw other at e in absurd (cc)
      | inl known ↦
          let written : some (codes "added") ≡ some text = rw known at e in
          let same : codes "added" ≡ text = cc in rw (← same) (ap some (is_document→eq file known))
    ]

abbrev good_read : ReadFaults
good_read = record { open_file = true; stat = true; read_all = true }

abbrev good_write : WriteFaults
good_write = record { create = true; chmod = true; write = true; close = true; rename = true }

abbrev pub good_system : FileFaults
good_system = record {
  windows = false;
  read_auto = good_read;
  eval_symlinks = true;
  read_config = good_read;
  stat_config = true;
  write_backup = good_write;
  write_config = good_write;
  remove_auto = true;
  write_auto = good_write;
}

pub system-Readable : Readable good_system
system-Readable = record { opens = refl; stats = refl; reads = refl }

abbrev pub configuration : Config
configuration = record (default_config lemmingd_service []) { rules = mirror ∷ [] }

abbrev pub no_files : Files
no_files = record { config = none; backup = none; auto = none }

abbrev router : Router
router = record {
  hosts =
      (
        codes "mirror.example.com",
        record {
          scheme = codes "http";
          target = codes "127.0.0.1:9000";
          include = codes "/pub/" ∷ [];
          exclude = [];
        },
      )
      ∷ [];
}

abbrev pub service : Service
service = record {
  allow_remote = false;
  base = mirror ∷ [];
  auto = [];
  router = router;
  trusted = trust_set (router_targets router.hosts) (router_domains router.hosts);
  auto_err = false;
}

unfoldable pub program : Unit {0}
unfolding parse_target split_target check_address default_scheme valid_port loopback is_loopback
    normalize_domain valid_domain valid_label validate_rule validate_rules validate_rules_from
    claim_domains check_domains check_prefixes check_remote normalize_host new_router add_rules
    add_hosts lower_byte is_space trim_left trim_right is_loopback_ip cut_last trim_space trim_last
    has_prefix split contains_any cut_scheme is_digit has_byte lookup insert parse_int parse_digits
    parse_ip split_host_port text_eq default_config read_private check_private write_file_atomic
    load_auto_rules check_auto write_auto_rules remove_auto build build_all trust_set router_targets
    router_domains install install_trust new_service_with new_service rule_lists index_from
    index_of_domain taken_domain change_auto add_rule delete_at remove_auto_rule remove_rule
    same_rule same_rules merge after_merge
program = tt

service_starts : new_service codec good_system configuration no_files ≡ some service
unfolding program
service_starts = refl

-- The rule is refused while another one routes the domain.
refused :
    (add_rule codec good_system mirror service no_files).2 ≡ taken (codes "mirror.example.com")
unfolding program
refused = refl

pub rule_added : (add_rule codec good_system added service no_files).2 ≡ done added
unfolding program
rule_added = refl

added_to :
    Step codec
      (service, no_files)
      (
        (add_rule codec good_system added service no_files).0,
        (add_rule codec good_system added service no_files).1,
      )
added_to = adds good_system added refl

Reach-IsConsistent_example : IsConsistent (add_rule codec good_system added service no_files).0
Reach-IsConsistent_example =
    Reach-IsConsistent codec good_system configuration no_files service service_starts
      (next here added_to)

abbrev pub larger : Service
larger = (add_rule codec good_system added service no_files).0

abbrev pub larger_files : Files
larger_files = (add_rule codec good_system added service no_files).1

pub rule_removed :
    (remove_rule codec good_system (codes "API.example.org.") larger larger_files).2 ≡ done added
unfolding program
rule_removed = refl

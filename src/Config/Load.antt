-- ===== src/Config/Load.antt =====
-- `DefaultPaths`, `LoadOrCreate` and `writeConfig` of internal/config/config.go, and the older names
-- of the fields of a rule.
pub mod Again
pub mod Valid
use hamsterd.Common.{
  Bool, true, false, Option, none, some, List, [], ◌∷◌, ◌++◌, Text, codes, text_eq, not,
  if◌then◌else◌,
}
use hamsterd.Config.Files.{
  File, ReadFaults, absent, failed, contents, read_private, WriteFaults, write_file_atomic,
}
use hamsterd.Config.Rule.{RedirectRule}
use hamsterd.Config.Settings.{
  Service, hamsterd_service, lemmingd_service, other_service, Config, default_config, decode_file,
  fill_defaults, validate,
}
use hamsterd.Config.AutoRules.{ConfigCodec}

pub record Paths : Type 0 where
  pub config : Text
  pub ca_cert : Text
  pub ca_key : Text
  pub cache : Text

-- The answers of the system about the directories of the user, with their errors as `none`, and
-- filepath.Join of two elements.
pub record UserDirectories : Type 0 where
  pub config_dir : Option Text
  pub cache_dir : Option Text
  pub join : Text → Text → Text

abbrev pub service_name : Service → Text
service_name hamsterd_service = codes "hamsterd"
service_name lemmingd_service = codes "lemmingd"
service_name other_service = []

unfoldable pub paths_in : UserDirectories → Service → Text → Text → Paths
paths_in d service config_base cache_base =
    let config_dir = d.join config_base (service_name service) in
    record {
      config = d.join config_dir (codes "config.json");
      ca_cert = d.join config_dir (codes "ca.crt");
      ca_key = d.join config_dir (codes "ca.key");
      cache = d.join cache_base (service_name service);
    }

unfoldable pub default_paths : UserDirectories → Service → Option Paths
default_paths d service = elim d.config_dir [
  | none ↦ none
  | some config_base ↦ elim d.cache_dir [
    | none ↦ none
    | some cache_base ↦ some (paths_in d service config_base cache_base)
  ]
]

-- The JSON object of a rule with the fields of both formats; `none` is a field that is absent.
pub record RuleJson : Type 0 where
  pub target : Text
  pub domains : Option (List Text)
  pub include : Option (List Text)
  pub exclude : Option (List Text)
  pub legacy_target : Text
  pub legacy_domains : Option (List Text)
  pub legacy_include : Option (List Text)
  pub legacy_exclude : Option (List Text)

unfoldable pub first_non_empty : Text → Text → Text
first_non_empty value fallback = if text_eq value [] then fallback else value

abbrev values_of : Option (List Text) → List Text
values_of none = []
values_of (some values) = values

unfoldable pub first_non_nil : Option (List Text) → Option (List Text) → List Text
first_non_nil none fallback = values_of fallback
first_non_nil (some values) fallback = values

-- `UnmarshalJSON` behind the JSON package.
unfoldable pub rule_of_json : RuleJson → RedirectRule
rule_of_json raw = record {
  target = first_non_empty raw.target raw.legacy_target;
  domains = first_non_nil raw.domains raw.legacy_domains;
  include = first_non_nil raw.include raw.legacy_include;
  exclude = first_non_nil raw.exclude raw.legacy_exclude;
}

-- What the system answers to `LoadOrCreate`.
pub record LoadFaults : Type 0 where
  pub windows : Bool
  pub read : ReadFaults
  pub mkdir : Bool
  pub chmod : Bool
  pub write : WriteFaults

-- The file after `writeConfig`, and whether there was no error.
unfoldable pub write_config : ConfigCodec → LoadFaults → Config → Option File → Option File × Bool
write_config codec faults cfg old =
    if not faults.mkdir
    then (old, false)
    else if not faults.chmod
    then (old, false)
    else elim (codec.encode_config cfg) [
      | none ↦ (old, false)
      | some text ↦ write_file_atomic faults.write (text ++ 10 ∷ []) 0o600 old
    ]

-- From the contents of the file on; `none` is an error.
unfoldable pub decode_and_validate : ConfigCodec → Service → Text → Text → Option Config
decode_and_validate codec service cache_dir text = elim (codec.decode_config text) [
  | none ↦ none
  | some raw ↦ elim (decode_file codec.unmarshal_rules raw) [
    | none ↦ none
    | some c ↦
        let cfg = fill_defaults service cache_dir c in
        elim (validate codec.parse_duration service cfg) [ some e ↦ none | none ↦ some cfg ]
  ]
]

abbrev with_flag : Bool → Option Config → Option (Config × Bool)
with_flag created none = none
with_flag created (some cfg) = some (cfg, created)

-- `LoadOrCreate`: the file, and the configuration with whether it was created; `none` is an error.
unfoldable pub load_or_create :
    ConfigCodec → LoadFaults → Service → Text → Option File → Option File × Option (Config × Bool)
load_or_create codec faults service cache_dir file =
    elim (read_private faults.windows faults.read file) [
      | absent ↦
          let cfg = default_config service cache_dir in
          let (file', written) = write_config codec faults cfg file in
          (file', if written then some (cfg, true) else none)
      | failed ↦ (file, none)
      | contents text ↦ (file, with_flag false (decode_and_validate codec service cache_dir text))
    ]

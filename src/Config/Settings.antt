-- ===== src/Config/Settings.antt =====
-- The configuration of internal/config/config.go: `Default`, the second half of `decode`, the
-- defaults that `LoadOrCreate` fills in, and `Validate`.
use hamsterd.Common.{
  ℕ, suc, Bool, true, false, Option, none, some, List, [], ◌∷◌, ◌++◌, Text, codes, text_eq, not,
  ◌&&◌, ◌||◌, if◌then◌else◌,
}
use hamsterd.Common.Int.{ℤ, pos, ltb_ℤ, eq_ℤ}
use hamsterd.Common.Clock.{Duration}
use hamsterd.Common.Strings.{contains_any, has_prefix}
use hamsterd.Config.Target.{validate_listen}
use hamsterd.Config.Rule.{RedirectRule, RuleError, validate_rule}

pub data Service : Type 0 where
  hamsterd_service lemmingd_service : Service
  -- any other text
  other_service : Service

pub record Cache : Type 0 where
  pub directory : Text
  pub max_size_mib : ℤ
  pub max_object_mib : ℤ
  pub default_ttl : Text

pub record Config : Type 0 where
  pub version : ℤ
  pub listen : Text
  pub allow_remote_clients : Bool
  pub allow_remote_targets : Bool
  pub connect_ports : List ℤ
  pub control_api : Bool
  pub domains : List Text
  pub cache : Cache
  pub rules : List RedirectRule

-- The fields of the JSON document, those of the older format included.
pub record FileConfig : Type 0 where
  pub config : Config
  pub legacy_format_version : Text
  pub legacy_socket : Text
  pub legacy_custom : Text

abbrev empty_cache : Cache
empty_cache = record {
  directory = [];
  max_size_mib = pos 0;
  max_object_mib = pos 0;
  default_ttl = [];
}

abbrev empty_config : Config
empty_config = record {
  version = pos 1;
  listen = [];
  allow_remote_clients = false;
  allow_remote_targets = false;
  connect_ports = [];
  control_api = false;
  domains = [];
  cache = empty_cache;
  rules = [];
}

abbrev pub default_cache : Text → Cache
default_cache directory = record {
  directory = directory;
  max_size_mib = pos 1024;
  max_object_mib = pos 256;
  default_ttl = codes "1h";
}

unfoldable pub default_config : Service → Text → Config
default_config hamsterd_service cache_dir = record empty_config {
  listen = codes "127.0.0.1:8080";
  cache = default_cache cache_dir;
}
default_config lemmingd_service cache_dir = record empty_config { listen = codes "127.0.0.1:18080" }
default_config other_service cache_dir = empty_config

abbrev is_nil {ℓ} : {A : Type ℓ} → List A → Bool
is_nil [] = true
is_nil (x ∷ xs) = false

unfoldable pub legacy_version : FileConfig → ℤ
legacy_version raw =
    if eq_ℤ raw.config.version (pos 0) && not (text_eq raw.legacy_format_version [])
    then pos 1
    else raw.config.version

unfoldable pub legacy_listen : FileConfig → Text
legacy_listen raw =
    let listen = if text_eq raw.config.listen [] then raw.legacy_socket else raw.config.listen in
    if not raw.config.allow_remote_clients && has_prefix listen (codes ":")
    then codes "127.0.0.1" ++ listen
    else listen

unfoldable pub uses_legacy_rules : FileConfig → Bool
uses_legacy_rules raw =
    is_nil raw.config.rules
    && (not (is_nil raw.legacy_custom)
        && (not (text_eq raw.legacy_custom (codes "null"))
            && not (text_eq raw.legacy_custom (codes "{}"))))

-- `decode` behind the JSON decoder, which is `unmarshal_rules` for the older rules; `none` is an
-- error.
unfoldable pub decode_file : (Text → Option (List RedirectRule)) → FileConfig → Option Config
decode_file unmarshal_rules raw =
    let c : Config = record raw.config {
      version = legacy_version raw;
      listen = legacy_listen raw;
    } in
    if uses_legacy_rules raw
    then elim (unmarshal_rules raw.legacy_custom) [
      | none ↦ none
      | some rules ↦ some (record c { rules = rules })
    ]
    else some c

-- What `LoadOrCreate` does to a decoded configuration before it validates it.
unfoldable pub fill_cache : Text → Cache → Cache
fill_cache cache_dir c =
    let d = default_cache cache_dir in
    record {
      directory = if text_eq c.directory [] then d.directory else c.directory;
      max_size_mib = if eq_ℤ c.max_size_mib (pos 0) then d.max_size_mib else c.max_size_mib;
      max_object_mib = if eq_ℤ c.max_object_mib (pos 0) then d.max_object_mib else c.max_object_mib;
      default_ttl = if text_eq c.default_ttl [] then d.default_ttl else c.default_ttl;
    }

unfoldable pub fill_defaults : Service → Text → Config → Config
fill_defaults hamsterd_service cache_dir c = record c { cache = fill_cache cache_dir c.cache }
fill_defaults lemmingd_service cache_dir c = c
fill_defaults other_service cache_dir c = c

pub data ConfigError : Type 0 where
  bad_version bad_listen control_not_lemmingd ports_without_remote : ConfigError
  bad_port : ℤ → ConfigError
  bad_domain : Text → ConfigError
  bad_cache_size bad_object_size bad_ttl unknown_service : ConfigError
  bad_rule : ℕ → RuleError → ConfigError

unfoldable pub check_ports : List ℤ → Option ConfigError
check_ports [] = none
check_ports (port ∷ ports) =
    let rest = check_ports ports in
    if ltb_ℤ port (pos 1) || ltb_ℤ (pos 65535) port then some (bad_port port) else rest

unfoldable pub check_domains : List Text → Option ConfigError
check_domains [] = none
check_domains (domain ∷ domains) =
    let rest = check_domains domains in
    if text_eq domain [] || contains_any domain (codes "/?#:")
    then some (bad_domain domain)
    else rest

unfoldable pub check_rules : ℕ → List RedirectRule → Bool → Option ConfigError
check_rules i [] allow_remote = none
check_rules i (rule ∷ rules) allow_remote =
    let rest = check_rules (suc i) rules allow_remote in
    elim (validate_rule rule allow_remote) [ some e ↦ some (bad_rule i e) | none ↦ rest ]

-- `parse_duration` is time.ParseDuration.
module _ (parse_duration : Text → Option Duration) where
  unfoldable pub check_cache : Cache → Option ConfigError
  check_cache c =
      if ltb_ℤ c.max_size_mib (pos 1)
      then some bad_cache_size
      else if ltb_ℤ c.max_object_mib (pos 1) || ltb_ℤ c.max_size_mib c.max_object_mib
      then some bad_object_size
      else elim (parse_duration c.default_ttl) [ none ↦ some bad_ttl | some _ ↦ none ]

  unfoldable pub check_service : Service → Config → Option ConfigError
  check_service hamsterd_service c = elim (check_domains c.domains) [
    | some e ↦ some e
    | none ↦ check_cache c.cache
  ]
  check_service lemmingd_service c = check_rules 0 c.rules c.allow_remote_targets
  check_service other_service c = some unknown_service

  abbrev is_lemmingd : Service → Bool
  is_lemmingd lemmingd_service = true
  is_lemmingd hamsterd_service = false
  is_lemmingd other_service = false

  -- `Validate`; `none` means that the configuration is valid.
  unfoldable pub validate : Service → Config → Option ConfigError
  validate service c =
      if not (eq_ℤ c.version (pos 1))
      then some bad_version
      else if not (validate_listen c.listen c.allow_remote_clients)
      then some bad_listen
      else if c.control_api && not (is_lemmingd service)
      then some control_not_lemmingd
      else if not (is_nil c.connect_ports) && not c.allow_remote_clients
      then some ports_without_remote
      else elim (check_ports c.connect_ports) [ some e ↦ some e | none ↦ check_service service c ]

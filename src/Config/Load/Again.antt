-- ===== src/Config/Load/Again.antt =====
-- The second start with the configuration that internal/config/config.go has created.
use hamsterd.Common.{
  ◌≡◌, ◌⊎◌, inl, inr, refl, sym, subst, ◌∙◌, ap, true, false, Option, none, some, List, [], ◌∷◌,
  ◌++◌, Text, codes, text_eq, arith, Option-cases,
}
use hamsterd.Common.Clock.{Duration}
use hamsterd.Common.Strings.{lower_byte, split, has_prefix, cut_last, has_byte, is_digit}
use hamsterd.Common.Net.{split_host_port}
use hamsterd.Common.Ip.{parse_ip, is_loopback_ip}
use hamsterd.Common.Numbers.{parse_int, parse_digits}
use hamsterd.Config.Target.{validate_listen, valid_port, is_loopback}
use hamsterd.Config.Files.{
  File, ReadFaults, contents, read_private, check_private, write_file_atomic,
}
use hamsterd.Config.Settings.{
  Service, hamsterd_service, lemmingd_service, other_service, Config, FileConfig, default_config,
  decode_file, legacy_version, legacy_listen, uses_legacy_rules, fill_cache, fill_defaults,
  check_ports, check_domains, check_cache, check_rules, check_service, validate,
}
use hamsterd.Config.AutoRules.{ConfigCodec}
use hamsterd.Config.Load.{LoadFaults, write_config, decode_and_validate, load_or_create}

-- A document without the fields of the older format.
abbrev pub current_format : Config → FileConfig
current_format cfg = record {
  config = cfg;
  legacy_format_version = [];
  legacy_socket = [];
  legacy_custom = [];
}

-- That the JSON package reads back the default configuration, with the newline behind it.
abbrev pub ReadsBack : ConfigCodec → Config → Type 0
ReadsBack codec cfg =
    (text : Text)
    → codec.encode_config cfg ≡ some text
    → codec.decode_config (text ++ 10 ∷ []) ≡ some (current_format cfg)

abbrev pub readable : ReadFaults
readable = record { open_file = true; stat = true; read_all = true }

-- The two programs of this repository.
abbrev pub IsProgram : Service → Type 0
IsProgram service = (service ≡ hamsterd_service) ⊎ (service ≡ lemmingd_service)

decode-default :
    (unmarshal_rules : Text → Option (List _)) (service : Service) (cache_dir : Text)
    → IsProgram service
    → decode_file unmarshal_rules (current_format (default_config service cache_dir))
      ≡ some (default_config service cache_dir)
unfolding decode_file legacy_version legacy_listen uses_legacy_rules default_config has_prefix
    text_eq
decode-default u hamsterd_service cache_dir p = refl
decode-default u lemmingd_service cache_dir p = refl
decode-default u other_service cache_dir (inl e) = absurd (cc)
decode-default u other_service cache_dir (inr e) = absurd (cc)

fill-default :
    (service : Service) (cache_dir : Text)
    → fill_defaults service cache_dir (default_config service cache_dir)
      ≡ default_config service cache_dir
unfolding fill_defaults fill_cache default_config text_eq
fill-default hamsterd_service cache_dir = ground arith
fill-default lemmingd_service cache_dir = refl
fill-default other_service cache_dir = refl

pub validate-default :
    (parse_duration : Text → Option Duration) (hour : Duration) (service : Service)
    (cache_dir : Text)
    → IsProgram service
    → parse_duration (codes "1h") ≡ some hour
    → validate parse_duration service (default_config service cache_dir) ≡ none
unfolding validate check_service check_cache check_domains check_rules check_ports default_config
    validate_listen split_host_port cut_last has_byte valid_port is_loopback parse_ip is_loopback_ip
    parse_int parse_digits is_digit text_eq lower_byte split
validate-default f hour hamsterd_service cache_dir p h = rw (h) refl
validate-default f hour lemmingd_service cache_dir p h = refl
validate-default f hour other_service cache_dir (inl e) h = absurd (cc)
validate-default f hour other_service cache_dir (inr e) h = absurd (cc)

decode_and_validate-default :
    (codec : ConfigCodec) (hour : Duration) (service : Service) (cache_dir text : Text)
    → IsProgram service
    → codec.parse_duration (codes "1h") ≡ some hour
    → codec.decode_config text ≡ some (current_format (default_config service cache_dir))
    → decode_and_validate codec service cache_dir text ≡ some (default_config service cache_dir)
unfolding decode_and_validate
decode_and_validate-default codec hour service cache_dir text p h d =
    rw
      (
        d,
        decode_and_validate,
        decode-default codec.unmarshal_rules service cache_dir p,
        fill-default service cache_dir,
        validate-default codec.parse_duration hour service cache_dir p h,
      )
      (ap some (fill-default service cache_dir))

write_config-file :
    (codec : ConfigCodec) (faults : LoadFaults) (cfg : Config) (old file : Option File)
    → write_config codec faults cfg old ≡ (file, true)
    → (text : Text) × (codec.encode_config cfg ≡ some text)
      × (file ≡ some (record { content = text ++ 10 ∷ []; mode = 0o600; regular = true }))
unfolding write_config write_file_atomic
write_config-file codec faults cfg old file run = elim (Option-cases (codec.encode_config cfg)) [
  | inl e ↦ absurd (ground (arith, e, run))
  | inr (text, e) ↦ (text, e, ground (arith, e, run))
]

created-file :
    (codec : ConfigCodec) (faults : LoadFaults) (service : Service) (cache_dir : Text)
    (file : Option File) (cfg : Config)
    → load_or_create codec faults service cache_dir none ≡ (file, some (cfg, true))
    → (write_config codec faults (default_config service cache_dir) none ≡ (file, true))
      × (default_config service cache_dir ≡ cfg)
unfolding load_or_create read_private
created-file codec faults service cache_dir file cfg run = ground arith

read-private_file :
    (later : LoadFaults) (content : Text)
    → later.read ≡ readable
    → read_private later.windows later.read
        (some (record { content = content; mode = 0o600; regular = true }))
      ≡ contents content
unfolding read_private check_private
read-private_file later content r = rw (r) (ground arith)

load_or_create-contents :
    (codec : ConfigCodec) (later : LoadFaults) (service : Service) (cache_dir : Text) (file : File)
    (cfg : Config)
    → read_private later.windows later.read (some file) ≡ contents file.content
    → decode_and_validate codec service cache_dir file.content ≡ some cfg
    → load_or_create codec later service cache_dir (some file) ≡ (some file, some (cfg, false))
unfolding load_or_create
load_or_create-contents codec later service cache_dir file cfg r d = rw (load_or_create, r, d) refl

-- If there is no configuration and `LoadOrCreate` of hamsterd or lemmingd creates it, then the next
-- start reads exactly this configuration from the file, which stays as it is, provided that the file
-- can be read, the JSON package reads back what it has written, and time.ParseDuration knows "1h".
pub load_or_create-again :
    (codec : ConfigCodec) (faults later : LoadFaults) (hour : Duration) (service : Service)
    (cache_dir : Text) (file : Option File) (cfg : Config)
    → IsProgram service
    → load_or_create codec faults service cache_dir none ≡ (file, some (cfg, true))
    → ReadsBack codec (default_config service cache_dir)
    → codec.parse_duration (codes "1h") ≡ some hour
    → later.read ≡ readable
    → load_or_create codec later service cache_dir file ≡ (file, some (cfg, false))
load_or_create-again codec faults later hour service cache_dir file cfg p run back h r =
    let (written, same) = created-file codec faults service cache_dir file cfg run in
    let (text, e, there) =
      write_config-file codec faults (default_config service cache_dir) none file written in
    let loaded =
      decode_and_validate-default codec hour service cache_dir (text ++ 10 ∷ []) p h
        (back text e) in
    let filed : File = record { content = text ++ 10 ∷ []; mode = 0o600; regular = true } in
    subst (λ f. load_or_create codec later service cache_dir f ≡ (f, some (cfg, false))) (sym there)
      (load_or_create-contents codec later service cache_dir filed cfg
        (read-private_file later (text ++ 10 ∷ []) r) (loaded ∙ ap some same))

-- ===== src/Config/AutoRules.antt =====
-- `LoadAutoRules`, `WriteAutoRules` and `MergeAutoRules` of internal/config/auto.go.
use Prim.Native.Nat.{bit_and}
use hamsterd.Common.{
  ℕ, ◌-◌, Bool, true, false, Option, none, some, List, [], ◌∷◌, ◌++◌, Text, not, ltb, length,
  if◌then◌else◌,
}
use hamsterd.Common.Int.{ℤ, pos, eq_ℤ}
use hamsterd.Common.Clock.{Duration}
use hamsterd.Config.Files.{
  File, ReadFaults, absent, failed, contents, read_private, WriteFaults, write_file_atomic,
}
use hamsterd.Config.Rule.{RedirectRule, validate_rules}
use hamsterd.Config.Settings.{Config, FileConfig, lemmingd_service, decode_file, validate}

abbrev pub max_auto_rules : ℕ
max_auto_rules = 100

-- `autoRules`, the document of rules.auto.json.
pub record AutoRules : Type 0 where
  pub version : ℤ
  pub rules : List RedirectRule

-- Package encoding/json at the documents of this package, one value to a file; `none` is an error.
-- `parse_duration` is time.ParseDuration.
pub record ConfigCodec : Type 0 where
  pub encode_auto : AutoRules → Option Text
  pub decode_auto : Text → Option AutoRules
  pub encode_config : Config → Option Text
  pub decode_config : Text → Option FileConfig
  pub unmarshal_rules : Text → Option (List RedirectRule)
  pub parse_duration : Text → Option Duration

-- The files config.json (behind its symbolic links), its backup and rules.auto.json.
pub record Files : Type 0 where
  pub config : Option File
  pub backup : Option File
  pub auto : Option File

-- What the system answers to the calls of this package.
pub record FileFaults : Type 0 where
  pub windows : Bool
  pub read_auto : ReadFaults
  pub eval_symlinks : Bool
  pub read_config : ReadFaults
  pub stat_config : Bool
  pub write_backup : WriteFaults
  pub write_config : WriteFaults
  pub remove_auto : Bool
  pub write_auto : WriteFaults

unfoldable pub check_auto : AutoRules → Option (List RedirectRule)
check_auto file =
    if not (eq_ℤ file.version (pos 1))
    then none
    else if ltb max_auto_rules (length file.rules)
    then none
    else some file.rules

-- `LoadAutoRules`, with its errors as `none`; a missing file has no rules.
unfoldable pub load_auto_rules : ConfigCodec → FileFaults → Files → Option (List RedirectRule)
load_auto_rules codec faults files =
    elim (read_private faults.windows faults.read_auto files.auto) [
      | absent ↦ some []
      | failed ↦ none
      | contents text ↦ elim (codec.decode_auto text) [ none ↦ none | some file ↦ check_auto file ]
    ]

-- os.Remove of rules.auto.json; it is no error if the file is missing.
unfoldable pub remove_auto : Bool → Option File → Option File × Bool
remove_auto answer none = (none, true)
remove_auto answer (some f) = if answer then (none, true) else (some f, false)

-- `WriteAutoRules`: the file after it, and whether there was no error.
unfoldable pub write_auto_rules :
    ConfigCodec → FileFaults → List RedirectRule → Option File → Option File × Bool
write_auto_rules codec faults [] old = remove_auto faults.remove_auto old
write_auto_rules codec faults (rule ∷ rules) old =
    elim (codec.encode_auto (record { version = pos 1; rules = rule ∷ rules })) [
      | none ↦ (old, false)
      | some text ↦ write_file_atomic faults.write_auto (text ++ 10 ∷ []) 0o600 old
    ]

pub data MergeError : Type 0 where
  -- an error of reading, of writing or of the documents
  storage : MergeError
  -- the error of `verify`
  refused : MergeError
  -- ErrInvalidMerge
  invalid_merge : MergeError

-- `none` as the number of merged rules and no backup where nothing was merged.
pub data MergeResult : Type 0 where
  merge_failed : MergeError → MergeResult
  merged : ℕ → MergeResult

abbrev mode_of : Option File → ℕ
mode_of none = 0
mode_of (some f) = f.mode

-- perm &^ 0o022
abbrev without_writers : ℕ → ℕ
without_writers mode = mode - bit_and mode 0o022

-- The three writes at the end.
unfoldable pub store_merged :
    ConfigCodec → FileFaults → Text → Text → ℕ → Files → Files × MergeResult
store_merged codec faults old_text new_text n files =
    let (backup, backed_up) = write_file_atomic faults.write_backup old_text 0o600 files.backup in
    let (config, installed) =
      write_file_atomic faults.write_config (new_text ++ 10 ∷ [])
        (without_writers (mode_of files.config)) files.config in
    let (auto, removed) = write_auto_rules codec faults [] files.auto in
    if not backed_up
    then (record files { backup = backup }, merge_failed storage)
    else if not installed
    then (record files { backup = backup; config = config }, merge_failed storage)
    else if not removed
    then (record { backup = backup; config = config; auto = auto }, merge_failed storage)
    else (record { backup = backup; config = config; auto = auto }, merged n)

-- From the decoded configuration on.
unfoldable pub merge_decoded :
    ConfigCodec
    → FileFaults
    → (Config → Bool)
    → Text
    → Config
    → List RedirectRule
    → Files
    → Files × MergeResult
merge_decoded codec faults verify old_text c auto files =
    let c' : Config = record c { rules = c.rules ++ auto } in
    if not (verify c)
    then (files, merge_failed refused)
    else elim (validate codec.parse_duration lemmingd_service c') [
      | some e ↦ (files, merge_failed invalid_merge)
      | none ↦ elim (validate_rules c'.rules c'.allow_remote_targets) [
        | some e ↦ (files, merge_failed invalid_merge)
        | none ↦ elim (codec.encode_config c') [
          | none ↦ (files, merge_failed storage)
          | some text ↦ store_merged codec faults old_text text (length auto) files
        ]
      ]
    ]

unfoldable pub merge_config :
    ConfigCodec → FileFaults → (Config → Bool) → List RedirectRule → Files → Files × MergeResult
merge_config codec faults verify auto files =
    if not faults.eval_symlinks
    then (files, merge_failed storage)
    else elim (read_private faults.windows faults.read_config files.config) [
      | absent ↦ (files, merge_failed storage)
      | failed ↦ (files, merge_failed storage)
      | contents text ↦
          if not faults.stat_config
          then (files, merge_failed storage)
          else elim (codec.decode_config text) [
            | none ↦ (files, merge_failed storage)
            | some raw ↦ elim (decode_file codec.unmarshal_rules raw) [
              | none ↦ (files, merge_failed storage)
              | some c ↦ merge_decoded codec faults verify text c auto files
            ]
          ]
    ]

-- `MergeAutoRules`; `verify` says whether there is no error.
unfoldable pub merge_auto_rules :
    ConfigCodec → FileFaults → (Config → Bool) → Files → Files × MergeResult
merge_auto_rules codec faults verify files = elim (load_auto_rules codec faults files) [
  | none ↦ (files, merge_failed storage)
  | some [] ↦ (files, merged 0)
  | some (rule ∷ rules) ↦ merge_config codec faults verify (rule ∷ rules) files
]

-- ===== src/Cmd/Lemmingd/Commands.antt =====
-- The commands of cmd/lemmingd/commands.go.
pub mod Shown
use hamsterd.Common.{
  ℕ, ◌+◌, ◌/◌, Bool, true, false, Option, none, some, List, [], ◌∷◌, ◌++◌, map, Text, codes,
  text_eq, not, is_some, if◌then◌else◌,
}
use hamsterd.Config.Files.{File}
use hamsterd.Config.Rule.{RedirectRule, validate_rules}
use hamsterd.Config.Settings.{lemmingd_service, Config}
use hamsterd.Config.AutoRules.{
  ConfigCodec, Files, FileFaults, load_auto_rules, merge_auto_rules, MergeResult, merge_failed,
  merged,
}
use hamsterd.Config.Load.{LoadFaults, load_or_create}
use hamsterd.Control.Endpoint.{EndpointResult}
use hamsterd.Control.Client.{
  ClientFunctions, ClientCall, ClientError, not_running, Sent, Received, client_error, done,
  client_do,
}
use hamsterd.Lemming.Api.{source_config, source_auto}

-- `effectiveConfig` without the names of the files.
pub record EffectiveConfig : Type 0 where
  pub rule_sources : List Text
  pub effective : Config

-- The printed configuration with whether there is a warning, or an error.
pub data Show : Type 0 where
  show_failed : Show
  shown : EffectiveConfig → Bool → Show

unfoldable pub effective_config : Config → List RedirectRule → EffectiveConfig
effective_config cfg auto = record {
  rule_sources = map (λ r. source_config) cfg.rules ++ map (λ r. source_auto) auto;
  effective = record cfg { rules = cfg.rules ++ auto };
}

-- Behind the two loads; `encodes` is the answer of the encoder.
unfoldable pub show_rules : Bool → Config → Option (List RedirectRule) → Show
show_rules encodes cfg none = show_failed
show_rules encodes cfg (some auto) =
    if encodes
    then shown (effective_config cfg auto)
        (is_some (validate_rules (cfg.rules ++ auto) cfg.allow_remote_targets))
    else show_failed

-- `showConfig`: the configuration file, and what is shown. `stat` is the answer of os.Stat.
unfoldable pub show_config :
    ConfigCodec → LoadFaults → FileFaults → Bool → Bool → Files → Option File × Show
show_config codec load faults stat encodes files =
    if not stat
    then (files.config, show_failed)
    else let (file, loaded) = load_or_create codec load lemmingd_service [] files.config in
      (
        file,
        elim loaded [
          | none ↦ show_failed
          | some (cfg, created) ↦ show_rules encodes cfg (load_auto_rules codec faults files)
        ],
      )

-- The result of `mergeConfig`: an error, or the number of merged rules.
pub data Merged : Type 0 where
  not_merged : Merged
  merged_rules : ℕ → Merged

unfoldable pub merged_offline : Files × MergeResult → Files × Merged
merged_offline (files, merge_failed e) = (files, not_merged)
merged_offline (files, merged n) = (files, merged_rules n)

abbrev is_not_running : ClientError → Bool
is_not_running not_running = true
is_not_running _ = false

abbrev merge_call : ClientCall
merge_call = record { method = codes "POST"; path = codes "/v1/merge"; body = none }

-- `mergeConfig`: the control API merges, and without it the files are edited. `decode_merged` reads
-- the number of merged rules of its reply.
unfoldable pub merge_config :
    ConfigCodec
    → FileFaults
    → ClientFunctions
    → (Text → Option ℕ)
    → EndpointResult
    → (Sent → Received)
    → Files
    → Files × Merged
merge_config codec faults f decode_merged published send files =
    elim (client_do f (codes "lemmingd") merge_call published send) [
      | done text ↦
          (files, elim (decode_merged text) [ none ↦ not_merged | some n ↦ merged_rules n ])
      | client_error e ↦
          if is_not_running e
          then merged_offline (merge_auto_rules codec faults (λ cfg. true) files)
          else (files, not_merged)
    ]

-- The exit code of a merge.
unfoldable pub merge_exit : Merged → ℕ
merge_exit not_merged = 1
merge_exit (merged_rules n) = 0

-- What `runConfig` does: an exit code at once, or a command.
pub data ConfigCommand : Type 0 where
  exits : ℕ → ConfigCommand
  show_command merge_command : ConfigCommand

-- `runConfig` behind the paths; no arguments are an error of the parser of flags.
unfoldable pub config_command : Option (List Text) → ConfigCommand
config_command none = exits 2
config_command (some []) = exits 2
config_command (some (name ∷ [])) =
    if text_eq name (codes "show")
    then show_command
    else if text_eq name (codes "merge")
    then merge_command
    else exits 2
config_command (some (a ∷ b ∷ names)) = exits 2

-- The exit code of `runMCP`: no arguments as above, and whether the server ends with an error other
-- than that of a cancelled context.
unfoldable pub mcp_exit : Option (List Text) → Bool → ℕ
mcp_exit none fails = 2
mcp_exit (some []) fails = if fails then 1 else 0
mcp_exit (some (a ∷ names)) fails = 2

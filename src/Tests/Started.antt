-- ===== src/Tests/Started.antt =====
-- Runs of the commands of cmd and of the tools of internal/lemming/mcp.go.
use hamsterd.Common.{
  ◌+◌, ◌*◌, ◌≡◌, refl, inl, true, false, Option, none, some, [], ◌∷◌, ◌++◌, codes, drop, length,
  arith,
}
use hamsterd.Common.Int.{pos}
use hamsterd.Common.Clock.{second, Duration}
use hamsterd.Common.Http.{Request}
use hamsterd.Config.Files.{File, read_private, write_file_atomic}
use hamsterd.Config.Settings.{
  hamsterd_service, lemmingd_service, default_config, decode_file, legacy_version, legacy_listen,
  uses_legacy_rules, fill_defaults, validate, check_ports, check_service, check_rules,
}
use hamsterd.Config.Target.{validate_listen}
use hamsterd.Config.AutoRules.{ConfigCodec, Files}
use hamsterd.Config.Load.{LoadFaults, write_config, decode_and_validate, load_or_create}
use hamsterd.Config.Load.Again.{current_format, load_or_create-again}
use hamsterd.Lemming.Recent.{RequestView, Ring, recent}
use hamsterd.Lemming.Api.{BodyCodec}
use hamsterd.Lemming.Mcp.{recent_requests, McpFunctions, tool_call, called}
use hamsterd.Lemming.Mcp.Intended.{handled, intended, handled-called}
use hamsterd.Redirect.{rewrite}
use hamsterd.Cmd.Lemmingd.{Fetched, not_fetched, serve_request}
use hamsterd.Cmd.Lemmingd.Commands.{show_config}
use hamsterd.Cmd.Lemmingd.Recorded.{IsRecord, serve_request-IsRecord}
use hamsterd.Cmd.Lemmingd.Commands.Shown.{Shows, show_config-new_service}
use hamsterd.Tests.Changes.{codec, good_system, configuration, service, no_files, program}
use hamsterd.Tests.Calls.{api, urls, page, get_page}

abbrev pub hour : Duration
hour = pos (3600 * second)

-- A codec that knows the default configuration of hamsterd.
abbrev pub cache_codec : ConfigCodec
cache_codec = record codec {
  encode_config = λ c. some (codes "{}");
  decode_config = λ text. some (current_format (default_config hamsterd_service (codes "/cache")));
  parse_duration = λ text. some hour;
}

abbrev pub good_load : LoadFaults
good_load = record {
  windows = false;
  read = record { open_file = true; stat = true; read_all = true };
  mkdir = true;
  chmod = true;
  write = record { create = true; chmod = true; write = true; close = true; rename = true };
}

abbrev created_file : Option File
created_file = some (record { content = codes "{}" ++ 10 ∷ []; mode = 0o600; regular = true })

config_created :
    load_or_create cache_codec good_load hamsterd_service (codes "/cache") none
    ≡ (created_file, some (default_config hamsterd_service (codes "/cache"), true))
unfolding load_or_create read_private write_config write_file_atomic
config_created = refl

load_or_create-again_example :
    load_or_create cache_codec good_load hamsterd_service (codes "/cache") created_file
    ≡ (created_file, some (default_config hamsterd_service (codes "/cache"), false))
load_or_create-again_example =
    load_or_create-again cache_codec good_load good_load hour hamsterd_service (codes "/cache")
      created_file (default_config hamsterd_service (codes "/cache")) (inl refl) config_created
      (λ text e. refl) refl refl

abbrev tools : McpFunctions
tools = record {
  encode_rule = λ rule. [];
  encode_url = λ url. url;
  query_escape = λ text. text;
  query_get = λ name query. drop (length name + 1) query;
}

abbrev no_bodies : BodyCodec
no_bodies = record { decode_rule = λ text. none; decode_url = λ text. none }

handled-called_example :
    handled codec good_system no_bodies urls
      (called tools (tool_call tools (recent_requests (pos 0))))
      api
    ≡ some (intended codec good_system no_bodies urls (recent_requests (pos 0)) api)
handled-called_example =
    handled-called tools codec good_system no_bodies urls (recent_requests (pos 0)) api refl
      (ground arith, ground arith)

-- The target of the rule is down.
abbrev refusing : Request → Fetched
refusing request = not_fetched (codes "connection refused")

abbrev no_ring : Ring
no_ring = record { recent = []; next = 0 }

serve_request-IsRecord_example :
    ((serve_request (λ url. url.path) service.router refusing (pos 9) get_page page no_ring).1
      ≡ refusing (rewrite service.router get_page page).0)
    × ((v : RequestView) × (recent 1
            (serve_request
              (λ url. url.path)
              service.router
              refusing
              (pos 9)
              get_page
              page
              no_ring).0
          ≡ v ∷ [])
        × IsRecord service.router refusing get_page page v)
serve_request-IsRecord_example =
    serve_request-IsRecord (λ url. url.path) service.router refusing (pos 9) get_page page no_ring
      (record { bounded = omega arith; in_range = omega arith; start = λ h. refl })

abbrev rule_codec : ConfigCodec
rule_codec = record codec { decode_config = λ text. some (current_format configuration) }

abbrev rule_files : Files
rule_files = record no_files { config = created_file }

config_loaded :
    load_or_create rule_codec good_load lemmingd_service [] created_file
    ≡ (created_file, some (configuration, false))
unfolding program load_or_create decode_and_validate decode_file legacy_version legacy_listen
    uses_legacy_rules fill_defaults validate check_ports check_service check_rules validate_listen
config_loaded = refl

show_config-new_service_example :
    Shows service false (show_config rule_codec good_load good_system true true rule_files).1
unfolding program
show_config-new_service_example =
    show_config-new_service rule_codec good_load good_system rule_files created_file configuration
      false service config_loaded refl refl

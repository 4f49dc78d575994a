-- ===== src/Cmd/Lemmingd/Start.antt =====
-- `run` of cmd/lemmingd/main.go: the start of the proxy, with or without a Firefox.
pub mod Ready
pub mod Stopped
use hamsterd.Common.{
  ℕ, Bool, true, false, Option, none, some, List, [], ◌∷◌, ◌++◌, Text, codes, not, ◌&&◌, ◌||◌,
  if◌then◌else◌,
}
use hamsterd.Common.Clock.{Time}
use hamsterd.Config.Settings.{lemmingd_service, Config}
use hamsterd.Config.AutoRules.{ConfigCodec, Files, FileFaults}
use hamsterd.Config.Load.{UserDirectories, default_paths, LoadFaults, load_or_create}
use hamsterd.Pki.Leaf.{Drawn}
use hamsterd.Pki.Authority.{CaCrypto, CaFaults, CaFiles, Authority}
use hamsterd.Pki.Authority as Ca
use hamsterd.Pki.Issuer.{Issuer, new_issuer}
use hamsterd.Proxycore.Guard.{Options}
use hamsterd.Proxycore.Serve.{HttpServer, ServeFaults, ServeResult, serve_after_listen}
use hamsterd.Lemming.Service.{Service, new_service}
use hamsterd.Lemming.Api.{Info}
use hamsterd.Firefox.Setup.{FirefoxConfig, Host}
use hamsterd.Firefox.Lease.{Profile}
use hamsterd.Firefox.Launch.{
  LaunchFaults, Launched, launched, refused, set_process, prepare_and_launch,
}
use hamsterd.Firefox.Close.{
  CloseFaults, CloseError, no_error, quit_failed, stop_failed, did_not_stop, close_browser,
  is_released,
}
use hamsterd.Cmd.Hamsterd.{override_listen}
use hamsterd.Cmd.Lemmingd.{client_address, fingerprint}

-- The flags and the arguments behind them.
pub record Flags : Type 0 where
  pub config : Text
  pub ca_cert : Text
  pub ca_key : Text
  pub listen : Text
  pub firefox_binary : Text
  pub nss_certutil : Text
  pub version : Bool
  pub args : List Text

-- The files at the paths of the flags.
pub record World : Type 0 where
  pub files : Files
  pub ca : CaFiles

-- What the system answers to one start; no flags are an error of their parser.
pub record RunFaults : Type 0 where
  pub directories : UserDirectories
  pub firefox_mode : Bool
  pub flags : Option Flags
  pub build_version : Text
  pub load : LoadFaults
  pub ca : CaFaults
  pub drawn : Drawn
  pub now : Time
  pub ca_loaded : Time
  pub rules : FileFaults
  -- whether control.Start succeeds
  pub control : Bool

-- What is served, with the URL that Firefox opens.
pub record Setup : Type 0 where
  pub config : Config
  pub ca : Authority
  pub issuer : Issuer
  pub info : Info
  pub service : Service
  pub options : Options
  pub browser_url : Option Text

pub data Run : Type 0 where
  exits : ℕ → Run
  serves : Setup → Run

-- The `lemming.Info` of `run`; `service.go` adds the path of the automatic rules.
unfoldable pub info_of : CaCrypto → RunFaults → Flags → Config → Authority → Info
info_of x faults flags cfg ca = record {
  version = faults.build_version;
  listen = cfg.listen;
  proxy_url = codes "http://" ++ client_address cfg.listen;
  config_file = flags.config;
  auto_rules_file = [];
  ca_cert_file = flags.ca_cert;
  ca_fingerprint = fingerprint (x.sum256 ca.leaf.raw);
  ca_not_after = ca.leaf.not_after;
}

unfoldable pub options_of : Config → Service → Options
options_of cfg s = record {
  remote_clients = cfg.allow_remote_clients;
  connect_ports = cfg.connect_ports;
  trusted = some s.trusted;
  listen_address = cfg.listen;
}

abbrev first_arg : List Text → Option Text
first_arg [] = none
first_arg (url ∷ args) = some url

abbrev one_arg : List Text → Bool
one_arg [] = false
one_arg (a ∷ []) = true
one_arg (a ∷ b ∷ args) = false

unfoldable pub setup_of : CaCrypto → RunFaults → Flags → Config → Authority → Service → Setup
setup_of x faults flags cfg ca s = record {
  config = cfg;
  ca = ca;
  issuer = new_issuer 1024;
  info = info_of x faults flags cfg ca;
  service = s;
  options = options_of cfg s;
  browser_url = if faults.firefox_mode then first_arg flags.args else none;
}

-- From the service on. pki.NewIssuer cannot fail, since `LoadOrCreate` sets the leaf.
unfoldable pub open_service :
    ConfigCodec → CaCrypto → RunFaults → Flags → Config → Authority → World → Run
open_service codec x faults flags cfg ca w = elim (new_service codec faults.rules cfg w.files) [
  | none ↦ exits 1
  | some s ↦
      if cfg.control_api && not faults.control
      then exits 1
      else serves (setup_of x faults flags cfg ca s)
]

-- From the certificate authority on.
unfoldable pub open_ca : ConfigCodec → CaCrypto → RunFaults → Flags → Config → World → World × Run
open_ca codec x faults flags cfg w =
    let (files, ca) =
      Ca.load_or_create x faults.ca faults.drawn (codes "lemmingd") faults.now faults.ca_loaded
        w.ca in
    let w' : World = record w { ca = files } in
    elim ca [
      | none ↦ (w', exits 1)
      | some (authority, created) ↦ (w', open_service codec x faults flags cfg authority w')
    ]

-- From the configuration on.
unfoldable pub open_config : ConfigCodec → CaCrypto → RunFaults → Flags → World → World × Run
open_config codec x faults flags w =
    let (file, loaded) = load_or_create codec faults.load lemmingd_service [] w.files.config in
    let w' : World = record w { files = record w.files { config = file } } in
    elim loaded [
      | none ↦ (w', exits 1)
      | some (cfg, created) ↦ elim (override_listen codec lemmingd_service flags.listen cfg) [
        | none ↦ (w', exits 1)
        | some cfg' ↦ open_ca codec x faults flags cfg' w'
      ]
    ]

-- `run` up to `ServeAfterListen`: the files, and the exit code or what is served.
unfoldable pub run : ConfigCodec → CaCrypto → RunFaults → World → World × Run
run codec x faults w = elim (default_paths faults.directories lemmingd_service) [
  | none ↦ (w, exits 1)
  | some paths ↦ elim faults.flags [
    | none ↦ (w, exits 2)
    | some flags ↦
        if flags.version
        then (w, exits 0)
        else if faults.firefox_mode && not (one_arg flags.args)
        then (w, exits 2)
        else open_config codec x faults flags w
  ]
]

abbrev is_launched : Launched → Bool
is_launched (launched lease pid) = true
is_launched (refused e stuck) = false

unfoldable pub any_error : ServeResult → Bool
any_error r =
    r.listen_failed || (r.ready_failed || (r.shutdown_failed || (r.close_failed || r.serve_failed)))

-- What `closeFirefox` logs.
pub data ClosingLog : Type 0 where
  not_running closed_firefox stopped_firefox : ClosingLog
  close_warning : CloseError → ClosingLog

abbrev log_of : Bool × CloseError → ClosingLog
log_of (forced, no_error) = if forced then stopped_firefox else closed_firefox
log_of (forced, quit_failed) = close_warning quit_failed
log_of (forced, stop_failed both) = close_warning (stop_failed both)
log_of (forced, did_not_stop both) = close_warning (did_not_stop both)

-- `closeFirefox`, and the profile behind it, without the Firefox that has exited.
unfoldable pub close_firefox : CloseFaults → Profile → Profile × ClosingLog
close_firefox faults p =
    if not faults.running
    then (set_process none p, not_running)
    else (if is_released faults then set_process none p else p, log_of (close_browser faults))

-- `run` behind the server, with the browser that has been started, if there is one.
abbrev close_started : CloseFaults → Profile → Launched → Profile × Option ClosingLog
close_started faults p (refused e stuck) = (p, none)
close_started faults p (launched lease pid) = let (q, log) = close_firefox faults p in (q, some log)

-- The end of `run`: the profile, the server, the outcome of `closeFirefox`, and the exit code.
pub record Served : Type 0 where
  pub profile : Profile
  pub server : Option HttpServer
  pub closed : Option ClosingLog
  pub code : ℕ

-- `ServeAfterListen` with the launch of Firefox as its `onReady`, and `closeFirefox`.
unfoldable pub serve_firefox :
    Host → LaunchFaults → ServeFaults → CloseFaults → Options → FirefoxConfig → Profile → Served
serve_firefox host launch faults closing options c p =
    let (q, result) = prepare_and_launch host launch c p in
    let ready : ServeFaults = record faults { on_ready = some (is_launched result) } in
    let (server, errors) = serve_after_listen ready options in
    let (left, log) = if faults.listen then close_started closing q result else (p, none) in
    record {
      profile = left;
      server = server;
      closed = log;
      code = if any_error errors then 1 else 0;
    }

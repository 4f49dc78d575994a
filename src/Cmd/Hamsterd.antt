-- ===== src/Cmd/Hamsterd.antt =====
-- cmd/hamsterd/main.go: the domains, the handlers and the start of hamsterd.
pub mod SameDomain
pub mod Ready
use hamsterd.Common.{
  ℕ, ◌*◌, Bool, true, Option, none, some, List, [], ◌∷◌, Text, codes, text_eq, any, is_some,
  if◌then◌else◌,
}
use hamsterd.Common.Int.{ℤ, pos, ◌*ℤ◌, wrap64}
use hamsterd.Common.Clock.{Time, Duration}
use hamsterd.Common.Strings.{trim_last}
use hamsterd.Common.Net.{split_host_port}
use hamsterd.Common.Numbers.{format_int}
use hamsterd.Common.Http.{Response, header_set}
use hamsterd.Config.Target.{equal_fold}
use hamsterd.Config.Files.{File}
use hamsterd.Config.AutoRules.{ConfigCodec}
use hamsterd.Config.Settings.{Service, hamsterd_service, Config, validate}
use hamsterd.Config.Load.{UserDirectories, default_paths, LoadFaults, load_or_create}
use hamsterd.Pki.Leaf.{Drawn}
use hamsterd.Pki.Authority.{CaCrypto, CaFaults, CaFiles, Authority}
use hamsterd.Pki.Authority as Ca
use hamsterd.Pki.Issuer.{Issuer, new_issuer}
use hamsterd.Cache.Disk.{Disk}
use hamsterd.Cache.Store.{Store}
use hamsterd.Cache.Scan.{CacheConfig, ScanFaults, new_transport}
use hamsterd.Proxycore.Guard.{Options, ports_or_default}

-- `domainHost`
abbrev host_of : Text → Option (Text × Text) → Text
host_of host_port none = trim_last b'.' host_port
host_of host_port (some (host, port)) = trim_last b'.' host

unfoldable pub domain_host : Text → Text
domain_host host_port = host_of host_port (split_host_port host_port)

-- `matchesDomain`
unfoldable pub matches_domain : Text → List Text → Bool
matches_domain host_port [] = true
matches_domain host_port (domain ∷ domains) =
    any (λ d. equal_fold (domain_host host_port) (trim_last b'.' d)) (domain ∷ domains)

-- `connectPorts`
unfoldable pub connect_ports : List ℤ → List ℤ
connect_ports ports = ports_or_default ports

pub data ConnectAction : Type 0 where
  tunneled intercepted : ConnectAction

-- The handler of CONNECT.
unfoldable pub handle_connect : List Text → Text → ConnectAction
handle_connect domains host = if matches_domain host domains then intercepted else tunneled

-- The transport that the handler of requests chooses.
pub data Carrier : Type 0 where
  cached direct : Carrier

unfoldable pub choose_carrier : List Text → Text → Carrier
choose_carrier domains hostname = if matches_domain hostname domains then cached else direct

-- The handler of responses, behind its guard.
unfoldable pub mark_response : ℕ → Response → Response
mark_response session response = record response {
  header = header_set (codes "X-Hamsterd-Session") (format_int (pos session)) response.header;
}

-- The flags; the file names that they give select the files of `World`.
pub record Flags : Type 0 where
  pub listen : Text
  pub version : Bool

-- The files of one start.
pub record World : Type 0 where
  pub config : Option File
  pub ca : CaFiles
  pub disk : Disk

-- What the system answers to one start; no flags are an error of their parser.
pub record RunFaults : Type 0 where
  pub directories : UserDirectories
  pub flags : Option Flags
  pub load : LoadFaults
  pub ca : CaFaults
  pub drawn : Drawn
  pub scan : ScanFaults
  -- the readings of the clock
  pub now : Time
  pub ca_loaded : Time
  pub scanned : Time
  -- the number that stands for the name of a temporary file
  pub number : Text → ℕ

-- What `run` hands to the server.
pub record Setup : Type 0 where
  pub config : Config
  pub ca : Authority
  pub issuer : Issuer
  pub store : Store
  pub options : Options

pub data Run : Type 0 where
  exits : ℕ → Run
  serves : Setup → Run

-- `-listen` and the second validation; `none` is an error.
unfoldable pub override_listen : ConfigCodec → Service → Text → Config → Option Config
override_listen codec service listen cfg =
    if text_eq listen []
    then some cfg
    else let changed : Config = record cfg { listen = listen } in
      if is_some (validate codec.parse_duration service changed) then none else some changed

-- A product of 64-bit integers.
unfoldable pub mebibytes : ℤ → ℤ
mebibytes n = wrap64 (wrap64 (n *ℤ pos 1024) *ℤ pos 1024)

unfoldable pub cache_config : Config → Duration → CacheConfig
cache_config cfg ttl = record {
  directory = cfg.cache.directory;
  max_bytes = mebibytes cfg.cache.max_size_mib;
  max_object_bytes = mebibytes cfg.cache.max_object_mib;
  default_ttl = ttl;
}

unfoldable pub options_of : Config → Options
options_of cfg = record {
  remote_clients = cfg.allow_remote_clients;
  connect_ports = cfg.connect_ports;
  trusted = none;
  listen_address = cfg.listen;
}

-- From the cache on. pki.NewIssuer cannot fail, since `LoadOrCreate` sets the leaf.
unfoldable pub open_cache : RunFaults → Config → Authority → Duration → World → World × Run
open_cache faults cfg ca ttl w =
    let (disk, store) =
      new_transport faults.number faults.scan faults.scanned (cache_config cfg ttl) w.disk in
    (
      record w { disk = disk },
      elim store [
        | none ↦ exits 1
        | some s ↦ serves (record {
          config = cfg;
          ca = ca;
          issuer = new_issuer 1024;
          store = s;
          options = options_of cfg;
        })
      ],
    )

-- From the certificate authority on.
unfoldable pub open_ca : ConfigCodec → CaCrypto → RunFaults → Config → World → World × Run
open_ca codec x faults cfg w =
    let (files, ca) =
      Ca.load_or_create x faults.ca faults.drawn (codes "hamsterd") faults.now faults.ca_loaded
        w.ca in
    let w' : World = record w { ca = files } in
    elim ca [
      | none ↦ (w', exits 1)
      | some (authority, created) ↦ elim (codec.parse_duration cfg.cache.default_ttl) [
        | none ↦ (w', exits 1)
        | some ttl ↦ open_cache faults cfg authority ttl w'
      ]
    ]

-- From the configuration on.
unfoldable pub open_config : ConfigCodec → CaCrypto → RunFaults → Text → Flags → World → World × Run
open_config codec x faults cache_dir flags w =
    let (file, loaded) = load_or_create codec faults.load hamsterd_service cache_dir w.config in
    let w' : World = record w { config = file } in
    elim loaded [
      | none ↦ (w', exits 1)
      | some (cfg, created) ↦ elim (override_listen codec hamsterd_service flags.listen cfg) [
        | none ↦ (w', exits 1)
        | some cfg' ↦ open_ca codec x faults cfg' w'
      ]
    ]

-- `run` up to `Serve`: the files, and the exit code or what is served.
unfoldable pub run : ConfigCodec → CaCrypto → RunFaults → World → World × Run
run codec x faults w = elim (default_paths faults.directories hamsterd_service) [
  | none ↦ (w, exits 1)
  | some paths ↦ elim faults.flags [
    | none ↦ (w, exits 2)
    | some flags ↦
        if flags.version then (w, exits 0) else open_config codec x faults paths.cache flags w
  ]
]

-- The exit code behind `Serve`.
unfoldable pub exit_code : Bool → ℕ
exit_code failed = if failed then 1 else 0

-- The answers of `informationHandler` to GET: the content type and the body.
unfoldable pub information : Text → Text → Text × Text
information ca_pem path =
    if text_eq path (codes "/ca.crt")
    then (codes "application/x-x509-ca-cert", ca_pem)
    else if text_eq path (codes "/healthz")
    then (codes "text/plain; charset=utf-8", codes "ok\n")
    else (
      codes "text/plain; charset=utf-8",
      codes "hamsterd caching proxy\nCA certificate: /ca.crt\nHealth check: /healthz\n",
    )

-- ===== src/Tests/Launched.antt =====
-- Runs of the launch of Firefox of internal/firefox/firefox.go.
use hamsterd.Common.{
  ◌≡◌, ◌≢◌, refl, true, false, none, some, [], ◌∷◌, ◌++◌, codes, text_eq, text_eq_iff, arith,
}
use hamsterd.Common.Int.{pos}
use hamsterd.Common.Http.{Url}
use hamsterd.Common.Fields.{IsWord}
use hamsterd.Common.Strings.{is_space}
use hamsterd.Proxycore.Guard.{Options}
use hamsterd.Proxycore.Serve.{ServeFaults, server_closed}
use hamsterd.Firefox.Setup.{FirefoxConfig, Host}
use hamsterd.Firefox.Lease.{
  preparing, running, ProfileLease, Profile, Attempt, ExitFaults, contents, parse_lease,
  remove_exited_lease,
}
use hamsterd.Firefox.Lease.Words.{parse_lease-contents}
use hamsterd.Firefox.Lease.Exit.{remove_exited_lease-keeps}
use hamsterd.Firefox.Launch.{killed, LaunchFaults, prepare_and_launch}
use hamsterd.Firefox.Close.{CloseFaults}
use hamsterd.Firefox.Launch.Left.{IsObedient, Outcome, prepare_and_launch-Outcome}

abbrev mine : ProfileLease
mine = record { state = running; token = codes "0a" }

abbrev other : ProfileLease
other = record { state = preparing; token = codes "ff" }

IsWord-0a : IsWord (codes "0a")
unfolding is_space
IsWord-0a = (refl, (refl, tt))

IsWord-ff : IsWord (codes "ff")
unfolding is_space
IsWord-ff = (refl, (refl, tt))

parse_lease-contents_example :
    parse_lease (contents mine (pos 4711))
    ≡ some (record { state = running; pid = pos 4711; token = codes "0a" })
parse_lease-contents_example = parse_lease-contents mine 4711 IsWord-0a (omega arith) (omega arith)

abbrev exit_system : ExitFaults
exit_system = record { mkdir = true; reads = true; removes = true; removes_preparation = true }

abbrev profile_of_other : Profile
profile_of_other = record {
  preparation = false;
  lease = some (contents other (pos 7));
  prefs = none;
  process = some (pos 9);
}

tokens_differ : codes "ff" ≢ codes "0a"
unfolding text_eq
tokens_differ e =
    let same : text_eq (codes "ff") (codes "0a") ≡ true =
      (text_eq_iff (codes "ff") (codes "0a")).1 e in
    absurd (ground (arith, same))

remove_exited_lease-keeps_example :
    (remove_exited_lease exit_system mine profile_of_other).lease ≡ profile_of_other.lease
remove_exited_lease-keeps_example =
    remove_exited_lease-keeps exit_system mine other (pos 7) profile_of_other tokens_differ
      IsWord-ff (7, omega arith, omega arith, refl) refl

abbrev settings : FirefoxConfig
settings = record {
  profile = codes "/p";
  ca_certificate = codes "/ca.crt";
  proxy_address = codes "127.0.0.1:18080";
  url = codes "https://app.example.com/";
  binary = [];
  nss_certutil = [];
}

abbrev page : Url
page = record {
  scheme = codes "https";
  user = none;
  host = codes "app.example.com";
  path = codes "/";
  raw_path = [];
  force_query = false;
  raw_query = [];
  fragment = [];
}

abbrev machine : Host
machine = record {
  goos = codes "linux";
  look_path = λ name. some (codes "/usr/bin/" ++ name);
  stat = λ path. some false;
  getenv = λ name. [];
  home = none;
  join_path = λ parts. [];
  parse_request_uri = λ raw. some page;
}

abbrev attempt : Attempt
attempt = record { opens = true; writes = true; partial = []; closes = true; removes = true }

-- Firefox does not start.
abbrev launch_system : LaunchFaults
launch_system = record {
  mkdir_profile = true;
  chmod_profile = true;
  mkdir = true;
  locked = some false;
  random = some (10 ∷ 255 ∷ []);
  first = attempt;
  second = attempt;
  self = pos 42;
  writes_prefs = true;
  partial_prefs = none;
  database = some true;
  run = λ program args. true;
  start = λ program args. some (pos 43);
  round = record { exited = false; locked = some false; exits = false };
  rounds = [];
  kill = killed;
  writes_update = true;
  partial_update = none;
  reads = true;
  removes = true;
  removes_preparation = true;
}

abbrev stale_profile : Profile
stale_profile = record {
  preparation = false;
  lease = some (codes "17");
  prefs = none;
  process = none;
}

launch_system-IsObedient : IsObedient launch_system
launch_system-IsObedient = record {
  drawn = tt;
  self = (42, omega arith, omega arith, refl);
  first = refl;
  second = refl;
  update = refl;
  reads = refl;
  removes = refl;
  removes_preparation = refl;
  kill = refl;
}

prepare_and_launch-Outcome_example :
    Outcome stale_profile
      (prepare_and_launch machine launch_system settings stale_profile).0
      (prepare_and_launch machine launch_system settings stale_profile).1
prepare_and_launch-Outcome_example =
    prepare_and_launch-Outcome machine launch_system settings stale_profile launch_system-IsObedient
      refl

abbrev serve_system : ServeFaults
serve_system = record {
  listen = true;
  on_ready = none;
  ends_first = false;
  end = server_closed;
  shutdown = true;
  close = true;
}

abbrev closing : CloseFaults
closing = record {
  running = true;
  quits = true;
  released = true;
  kill = killed;
  released_late = true;
}

abbrev local_options : Options
local_options = record {
  remote_clients = false;
  connect_ports = [];
  trusted = none;
  listen_address = codes "127.0.0.1:18080";
}

-- ===== src/Tests/Begun.antt =====
-- A start of cmd/hamsterd/main.go.
use hamsterd.Common.{◌≡◌, refl, true, false, none, some, [], ◌++◌, ◌*◌, codes, text_eq}
use hamsterd.Common.Int.{pos, ◌*ℤ◌, wrap64}
use hamsterd.Common.Clock.{second}
use hamsterd.Config.Files.{read_private, write_file_atomic}
use hamsterd.Config.Settings.{hamsterd_service, default_config}
use hamsterd.Config.Load.{default_paths, paths_in, write_config, load_or_create}
use hamsterd.Cache.Disk.{Disk}
use hamsterd.Cache.Store.{evict_locked, evict_loop}
use hamsterd.Cache.Scan.{
  new_transport, valid_config, scan_items, scanned_store, rebuild, keep_pairs, sort_by_time,
  push_all, empty_store,
}
use hamsterd.Tests.Authorities
use hamsterd.Pki.Issuer.{new_issuer}
use hamsterd.Cmd.Hamsterd.{
  World, RunFaults, Setup, serves, mebibytes, cache_config, options_of, override_listen, open_cache,
  open_ca, open_config, run,
}
use hamsterd.Cmd.Hamsterd.Ready.{IsReady, run-IsReady}
use hamsterd.Tests.Started.{cache_codec, good_load, hour}

abbrev no_disk : Disk
no_disk path = none

abbrev begin_system : RunFaults
begin_system = record {
  directories = record {
    config_dir = some (codes "/etc");
    cache_dir = some [];
    join = λ a b. a ++ b;
  };
  flags = some (record { listen = []; version = false });
  load = good_load;
  ca = Authorities.good_system;
  drawn = Authorities.drawn;
  scan = record { mkdir = true; items = some []; chmod = true; removes = λ path. true };
  now = pos (400 * second);
  ca_loaded = pos (401 * second);
  scanned = pos (401 * second);
  number = λ name. 0;
}

abbrev nothing : World
nothing = record { config = none; ca = Authorities.no_files; disk = no_disk }

abbrev first_setup : Setup
first_setup =
    let cfg = default_config hamsterd_service (codes "hamsterd") in
    record {
      config = cfg;
      ca = Authorities.authority;
      issuer = new_issuer 1024;
      store = empty_store (cache_config cfg hour) no_disk;
      options = options_of cfg;
    }

begun : (run cache_codec Authorities.crypto begin_system nothing).1 ≡ serves first_setup
unfolding run default_paths paths_in open_config load_or_create read_private write_config
    write_file_atomic override_listen open_ca open_cache new_transport valid_config scan_items
    scanned_store rebuild keep_pairs sort_by_time push_all evict_locked evict_loop empty_store
    cache_config mebibytes default_config text_eq ◌*ℤ◌ wrap64 Authorities.program
begun = refl

run-IsReady_example :
    IsReady cache_codec Authorities.crypto begin_system
      (run cache_codec Authorities.crypto begin_system nothing).0
      first_setup
run-IsReady_example =
    run-IsReady cache_codec Authorities.crypto begin_system hour nothing first_setup refl begun

-- ===== src/Cmd/Hamsterd/Ready.antt =====
-- What cmd/hamsterd/main.go serves with.
use hamsterd.Common.{
  ◌≡◌, [], refl, sym, subst, none, some, Text, codes, text_eq, arith, Option-cases, Bool-cases, inl,
  inr,
}
use hamsterd.Common.Clock.{Duration}
use hamsterd.Config.AutoRules.{ConfigCodec}
use hamsterd.Config.Settings.{Service, hamsterd_service, Config, validate}
use hamsterd.Config.Load.{default_paths, load_or_create}
use hamsterd.Config.Load.Valid.{load_or_create-valid}
use hamsterd.Pki.Authority.{CaCrypto, Authority}
use hamsterd.Pki.Authority as Ca
use hamsterd.Pki.Authority.Safe.{IsAuthority, load_or_create-IsAuthority}
use hamsterd.Cache.Store.Keeps.{IsBounded}
use hamsterd.Cache.Scan.{new_transport}
use hamsterd.Cache.Scan.Bounded.{new_transport-IsBounded}
use hamsterd.Cmd.Hamsterd.{
  Flags, World, RunFaults, Setup, serves, override_listen, cache_config, options_of, open_cache,
  open_ca, open_config, run,
}
use hamsterd.Pki.Issuer.{new_issuer}

pub override_listen-valid :
    (codec : ConfigCodec) (service : Service) (listen : Text) (cfg cfg' : Config)
    → validate codec.parse_duration service cfg ≡ none
    → override_listen codec service listen cfg ≡ some cfg'
    → validate codec.parse_duration service cfg' ≡ none
unfolding override_listen
override_listen-valid codec service listen cfg cfg' v run = elim (Bool-cases (text_eq listen [])) [
  | inl e ↦ subst (λ c. validate codec.parse_duration service c ≡ none) (ground (arith, e, run)) v
  | inr e ↦
      elim (Option-cases (validate codec.parse_duration service (record cfg { listen = listen }))) [
        | inl f ↦
            subst (λ c. validate codec.parse_duration service c ≡ none) (ground (arith, e, f, run))
              f
        | inr (x, f) ↦ absurd (ground (arith, e, f, run))
      ]
]

-- A valid configuration, an authority that may sign, and a cache within its bounds.
pub record IsReady (codec : ConfigCodec) (x : CaCrypto) (faults : RunFaults) (w : World) (s : Setup)
    : Type 0 where
  pub valid : validate codec.parse_duration hamsterd_service s.config ≡ none
  pub authority : IsAuthority x faults.ca_loaded s.ca w.ca
  pub bounded : IsBounded s.store

module _ (codec : ConfigCodec) (x : CaCrypto) (faults : RunFaults) where
  open_cache-IsReady :
      (cfg : Config) (ca : Authority) (ttl : Duration) (w : World) (s : Setup)
      → validate codec.parse_duration hamsterd_service cfg ≡ none
      → IsAuthority x faults.ca_loaded ca w.ca
      → (open_cache faults cfg ca ttl w).1 ≡ serves s
      → IsReady codec x faults (open_cache faults cfg ca ttl w).0 s
  unfolding open_cache
  open_cache-IsReady cfg ca ttl w s v a run =
      let c = cache_config cfg ttl in
      let t = new_transport faults.number faults.scan faults.scanned c w.disk in
      elim (Option-cases t.1) [
        | inl e ↦ absurd (ground (arith, e, run))
        | inr (store, e) ↦
            let made : Setup = record {
              config = cfg;
              ca = ca;
              issuer = new_issuer 1024;
              store = store;
              options = options_of cfg;
            } in
            let same : made ≡ s = ground (arith, e, run) in
            subst (λ y. IsReady codec x faults (open_cache faults cfg ca ttl w).0 y) same
              (record {
                valid = v;
                authority = a;
                bounded =
                    new_transport-IsBounded faults.number faults.scan faults.scanned c w.disk store
                      e;
              })
      ]

  open_ca-IsReady :
      (cfg : Config) (w : World) (s : Setup)
      → validate codec.parse_duration hamsterd_service cfg ≡ none
      → (open_ca codec x faults cfg w).1 ≡ serves s
      → IsReady codec x faults (open_ca codec x faults cfg w).0 s
  unfolding open_ca
  open_ca-IsReady cfg w s v run =
      let l =
        Ca.load_or_create x faults.ca faults.drawn (codes "hamsterd") faults.now faults.ca_loaded
          w.ca in
      elim (Option-cases l.1) [
        | inl e ↦ absurd (ground (arith, e, run))
        | inr ((ca, created), e) ↦
            elim (Option-cases (codec.parse_duration cfg.cache.default_ttl)) [
              | inl f ↦ absurd (ground (arith, e, f, run))
              | inr (ttl, f) ↦
                  let w' : World = record w { ca = l.0 } in
                  let step : open_ca codec x faults cfg w ≡ open_cache faults cfg ca ttl w' =
                    ground (arith, e, f) in
                  let safe : IsAuthority x faults.ca_loaded ca l.0 =
                    load_or_create-IsAuthority x faults.ca faults.ca_loaded faults.drawn
                      (codes "hamsterd") faults.now w.ca l.0 ca created (ground (arith, e)) in
                  subst (λ r. r.1 ≡ serves s → IsReady codec x faults r.0 s) (sym step)
                    (open_cache-IsReady cfg ca ttl w' s v safe) run
            ]
      ]

  module _ (hour : Duration) (known : codec.parse_duration (codes "1h") ≡ some hour) where
    open_config-IsReady :
        (cache_dir : Text) (flags : Flags) (w : World) (s : Setup)
        → (open_config codec x faults cache_dir flags w).1 ≡ serves s
        → IsReady codec x faults (open_config codec x faults cache_dir flags w).0 s
    unfolding open_config
    open_config-IsReady cache_dir flags w s run =
        let l = load_or_create codec faults.load hamsterd_service cache_dir w.config in
        elim (Option-cases l.1) [
          | inl e ↦ absurd (ground (arith, e, run))
          | inr ((cfg, created), e) ↦
              elim (Option-cases (override_listen codec hamsterd_service flags.listen cfg)) [
                | inl f ↦ absurd (ground (arith, e, f, run))
                | inr (cfg', f) ↦
                    let w' : World = record w { config = l.0 } in
                    let step : open_config codec x faults cache_dir flags w
                        ≡ open_ca codec x faults cfg' w' =
                      ground (arith, e, f) in
                    let loaded : validate codec.parse_duration hamsterd_service cfg ≡ none =
                      load_or_create-valid codec faults.load hour hamsterd_service cache_dir
                        w.config l.0 cfg created (inl refl) known (ground (arith, e)) in
                    subst (λ r. r.1 ≡ serves s → IsReady codec x faults r.0 s) (sym step)
                      (open_ca-IsReady cfg' w' s (
                        override_listen-valid codec hamsterd_service flags.listen cfg cfg' loaded
                          f))
                      run
              ]
        ]

-- When hamsterd comes to serve, whatever the system answered on the way and whether the files were
-- there or were created: its configuration is valid, also with the address of the -listen flag, its
-- certificate authority has a private key file, may sign now and is none of the three that
-- SECURITY.md lists, and the store of its cache agrees with its index and is within its bounds. The
-- condition is that time.ParseDuration knows the text "1h".
pub run-IsReady :
    (codec : ConfigCodec) (x : CaCrypto) (faults : RunFaults) (hour : Duration) (w : World)
    (s : Setup)
    → codec.parse_duration (codes "1h") ≡ some hour
    → (run codec x faults w).1 ≡ serves s
    → IsReady codec x faults (run codec x faults w).0 s
unfolding run
run-IsReady codec x faults hour w s known done =
    elim (Option-cases (default_paths faults.directories hamsterd_service)) [
      | inl e ↦ absurd (ground (arith, e, done))
      | inr (paths, e) ↦ elim (Option-cases faults.flags) [
        | inl f ↦ absurd (ground (arith, e, f, done))
        | inr (flags, f) ↦ elim (Bool-cases flags.version) [
          | inl v ↦ absurd (ground (arith, e, f, v, done))
          | inr v ↦
              let step : run codec x faults w ≡ open_config codec x faults paths.cache flags w =
                ground (arith, e, f, v) in
              subst (λ r. r.1 ≡ serves s → IsReady codec x faults r.0 s) (sym step)
                (open_config-IsReady codec x faults hour known paths.cache flags w s) done
        ]
      ]
    ]

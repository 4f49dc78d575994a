-- ===== src/Cmd/Lemmingd/Start/Ready.antt =====
-- What cmd/lemmingd/main.go serves with.
use hamsterd.Common.{
  ◌≡◌, refl, sym, subst, none, some, [], codes, arith, Option-cases, Bool-cases, inl, inr, not,
  ◌&&◌,
}
use hamsterd.Common.Clock.{Duration}
use hamsterd.Config.AutoRules.{ConfigCodec}
use hamsterd.Config.Settings.{lemmingd_service, Config, validate}
use hamsterd.Config.Load.{default_paths, load_or_create}
use hamsterd.Config.Load.Valid.{load_or_create-valid}
use hamsterd.Pki.Authority.{CaCrypto, CaFiles, Authority}
use hamsterd.Pki.Authority as Ca
use hamsterd.Pki.Authority.Safe.{IsAuthority, load_or_create-IsAuthority}
use hamsterd.Lemming.Service.{new_service}
use hamsterd.Lemming.Service.Invariant.{IsConsistent, new_service-IsConsistent}
use hamsterd.Cmd.Hamsterd.{override_listen}
use hamsterd.Cmd.Hamsterd.Ready.{override_listen-valid}
use hamsterd.Cmd.Lemmingd.Start.{
  Flags, World, RunFaults, Setup, serves, setup_of, options_of, open_service, open_ca, open_config,
  run, one_arg,
}

-- A valid configuration, an authority that may sign, and rules that the router and the trust list of the
-- proxy follow.
pub record IsReady (codec : ConfigCodec) (x : CaCrypto) (faults : RunFaults) (w : World) (s : Setup)
    : Type 0 where
  pub valid : validate codec.parse_duration lemmingd_service s.config ≡ none
  pub authority : IsAuthority x faults.ca_loaded s.ca w.ca
  pub rules : IsConsistent s.service
  pub trusted : s.options.trusted ≡ some s.service.trusted

module _ (codec : ConfigCodec) (x : CaCrypto) (faults : RunFaults) (flags : Flags) where
  open_service-IsReady :
      (cfg : Config) (ca : Authority) (w : World) (s : Setup)
      → validate codec.parse_duration lemmingd_service cfg ≡ none
      → IsAuthority x faults.ca_loaded ca w.ca
      → open_service codec x faults flags cfg ca w ≡ serves s
      → IsReady codec x faults w s
  unfolding open_service setup_of options_of
  open_service-IsReady cfg ca w s v a run =
      elim (Option-cases (new_service codec faults.rules cfg w.files)) [
        | inl e ↦ absurd (ground (arith, e, run))
        | inr (service, e) ↦
            let same : setup_of x faults flags cfg ca service ≡ s = ground (arith, e, run) in
            subst (λ y. IsReady codec x faults w y) same
              (record {
                valid = v;
                authority = a;
                rules = new_service-IsConsistent codec faults.rules cfg w.files service e;
                trusted = refl;
              })
      ]

  open_ca-IsReady :
      (cfg : Config) (w : World) (s : Setup)
      → validate codec.parse_duration lemmingd_service cfg ≡ none
      → (open_ca codec x faults flags cfg w).1 ≡ serves s
      → IsReady codec x faults (open_ca codec x faults flags cfg w).0 s
  unfolding open_ca
  open_ca-IsReady cfg w s v run =
      let l =
        Ca.load_or_create x faults.ca faults.drawn (codes "lemmingd") faults.now faults.ca_loaded
          w.ca in
      elim (Option-cases l.1) [
        | inl e ↦ absurd (ground (arith, e, run))
        | inr ((ca, created), e) ↦
            let w' : World = record w { ca = l.0 } in
            let step : open_ca codec x faults flags cfg w
                ≡ (w', open_service codec x faults flags cfg ca w') =
              ground (arith, e) in
            let safe : IsAuthority x faults.ca_loaded ca l.0 =
              load_or_create-IsAuthority x faults.ca faults.ca_loaded faults.drawn
                (codes "lemmingd") faults.now w.ca l.0 ca created (ground (arith, e)) in
            subst (λ r. r.1 ≡ serves s → IsReady codec x faults r.0 s) (sym step)
              (open_service-IsReady cfg ca w' s v safe) run
      ]

  module _ (hour : Duration) (known : codec.parse_duration (codes "1h") ≡ some hour) where
    open_config-IsReady :
        (w : World) (s : Setup)
        → (open_config codec x faults flags w).1 ≡ serves s
        → IsReady codec x faults (open_config codec x faults flags w).0 s
    unfolding open_config
    open_config-IsReady w s run =
        let l = load_or_create codec faults.load lemmingd_service [] w.files.config in
        elim (Option-cases l.1) [
          | inl e ↦ absurd (ground (arith, e, run))
          | inr ((cfg, created), e) ↦
              elim (Option-cases (override_listen codec lemmingd_service flags.listen cfg)) [
                | inl f ↦ absurd (ground (arith, e, f, run))
                | inr (cfg', f) ↦
                    let w' : World = record w { files = record w.files { config = l.0 } } in
                    let step : open_config codec x faults flags w
                        ≡ open_ca codec x faults flags cfg' w' =
                      ground (arith, e, f) in
                    let loaded : validate codec.parse_duration lemmingd_service cfg ≡ none =
                      load_or_create-valid codec faults.load hour lemmingd_service [] w.files.config
                        l.0 cfg created (inr refl) known (ground (arith, e)) in
                    subst (λ r. r.1 ≡ serves s → IsReady codec x faults r.0 s) (sym step)
                      (open_ca-IsReady cfg' w' s (
                        override_listen-valid codec lemmingd_service flags.listen cfg cfg' loaded
                          f))
                      run
              ]
        ]

-- When lemmingd comes to serve, whatever the system answered on the way: its configuration is valid, also
-- with the address of the -listen flag, its certificate authority has private files and may sign now, and
-- its router and the trust list that the proxy is given follow its effective rules. The condition is that
-- time.ParseDuration knows the text "1h".
pub run_lemmingd-IsReady :
    (codec : ConfigCodec) (x : CaCrypto) (faults : RunFaults) (hour : Duration) (w : World)
    (s : Setup)
    → codec.parse_duration (codes "1h") ≡ some hour
    → (run codec x faults w).1 ≡ serves s
    → IsReady codec x faults (run codec x faults w).0 s
unfolding run
run_lemmingd-IsReady codec x faults hour w s known done =
    elim (Option-cases (default_paths faults.directories lemmingd_service)) [
      | inl e ↦ absurd (ground (arith, e, done))
      | inr (paths, e) ↦ elim (Option-cases faults.flags) [
        | inl f ↦ absurd (ground (arith, e, f, done))
        | inr (flags, f) ↦ elim (Bool-cases flags.version) [
          | inl v ↦ absurd (ground (arith, e, f, v, done))
          | inr v ↦ elim (Bool-cases (faults.firefox_mode && not (one_arg flags.args))) [
            | inl u ↦ absurd (ground (arith, e, f, v, u, done))
            | inr u ↦
                let step : run codec x faults w ≡ open_config codec x faults flags w =
                  ground (arith, e, f, v, u) in
                subst (λ r. r.1 ≡ serves s → IsReady codec x faults r.0 s) (sym step)
                  (open_config-IsReady codec x faults flags hour known w s) done
          ]
        ]
      ]
    ]

-- ===== src/Config/Load/Valid.antt =====
-- The configurations that internal/config/config.go returns are valid.
use hamsterd.Common.{
  ◌≡◌, ◌⊎◌, refl, subst, Bool, Option, none, some, Text, codes, arith, Option-cases, Bool-cases,
  inl, inr,
}
use hamsterd.Common.Clock.{Duration}
use hamsterd.Config.Files.{File, ReadResult, absent, failed, contents, read_private}
use hamsterd.Config.AutoRules.{ConfigCodec}
use hamsterd.Config.Settings.{Service, Config, default_config, decode_file, fill_defaults, validate}
use hamsterd.Config.Load.{LoadFaults, write_config, decode_and_validate, load_or_create}
use hamsterd.Config.Load.Again.{IsProgram, validate-default}

decode_and_validate-valid :
    (codec : ConfigCodec) (service : Service) (cache_dir text : Text) (cfg : Config)
    → decode_and_validate codec service cache_dir text ≡ some cfg
    → validate codec.parse_duration service cfg ≡ none
unfolding decode_and_validate
decode_and_validate-valid codec service cache_dir text cfg run =
    elim (Option-cases (codec.decode_config text)) [
      | inl e ↦ absurd (ground (arith, e, run))
      | inr (raw, e) ↦ elim (Option-cases (decode_file codec.unmarshal_rules raw)) [
        | inl f ↦ absurd (ground (arith, e, f, run))
        | inr (c, f) ↦
            elim (Option-cases
              (validate codec.parse_duration service (fill_defaults service cache_dir c))) [
                | inl g ↦ ground (arith, e, f, g, run)
                | inr (x, g) ↦ absurd (ground (arith, e, f, g, run))
              ]
      ]
    ]

ReadResult-cases :
    (r : ReadResult) → (r ≡ absent) ⊎ ((r ≡ failed) ⊎ ((text : Text) × (r ≡ contents text)))
ReadResult-cases absent = inl refl
ReadResult-cases failed = inr (inl refl)
ReadResult-cases (contents text) = inr (inr (text, refl))

pub load_or_create-valid :
    (codec : ConfigCodec) (faults : LoadFaults) (hour : Duration) (service : Service)
    (cache_dir : Text) (old file : Option File) (cfg : Config) (created : Bool)
    → IsProgram service
    → codec.parse_duration (codes "1h") ≡ some hour
    → load_or_create codec faults service cache_dir old ≡ (file, some (cfg, created))
    → validate codec.parse_duration service cfg ≡ none
unfolding load_or_create
load_or_create-valid codec faults hour service cache_dir old file cfg created p h run =
    elim (ReadResult-cases (read_private faults.windows faults.read old)) [
      | inl e ↦
          let w = write_config codec faults (default_config service cache_dir) old in
          elim (Bool-cases w.1) [
            | inl t ↦
                let same : default_config service cache_dir ≡ cfg = ground (arith, e, t, run) in
                subst (λ c. validate codec.parse_duration service c ≡ none) same
                  (validate-default codec.parse_duration hour service cache_dir p h)
            | inr f ↦ absurd (ground (arith, e, f, run))
          ]
      | inr (inl e) ↦ absurd (ground (arith, e, run))
      | inr (inr (text, e)) ↦
          elim (Option-cases (decode_and_validate codec service cache_dir text)) [
            | inl f ↦ absurd (ground (arith, e, f, run))
            | inr (c, f) ↦
                decode_and_validate-valid codec service cache_dir text cfg
                  (ground (arith, e, f, run))
          ]
    ]

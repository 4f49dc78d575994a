-- ===== src/Lemming/Service/Restart.antt =====
-- What a rule change of internal/lemming/service.go leaves on disk: a lemmingd that starts from it
-- has the same rules.
use hamsterd.Common.{
  zero, suc, is_some, text_eq, ℕ, ◌≤◌, Bool, true, false, Option, none, some, List, [], ◌∷◌, ◌++◌,
  Text, ◌≡◌, sym, Option-cases, Bool-cases, inl, inr, arith, ltb, length, ltb→lt, length-append,
  subst,
}
use hamsterd.Common.Int.{pos}
use hamsterd.Common.Strings.{trim_space}
use hamsterd.Config.Rule.{RedirectRule, validate_rule}
use hamsterd.Config.Settings.{Config}
use hamsterd.Config.Files.{File, contents, read_private, check_private, write_file_atomic}
use hamsterd.Config.AutoRules.{
  AutoRules, max_auto_rules, ConfigCodec, Files, FileFaults, load_auto_rules, write_auto_rules,
  remove_auto, check_auto,
}
use hamsterd.Redirect.{Router}
use hamsterd.Lemming.Service.{
  delete_at, index_of_domain, remove_auto_rule, remove_rule, Service, build, install, install_trust,
  new_service_with, new_service, done, taken_domain, change_auto, add_rule,
}

-- encoding/json reads back the document of these rules that it has written, with the newline
-- behind it.
abbrev pub ReadsBack : ConfigCodec → List RedirectRule → Type 0
ReadsBack codec rules =
    (text : Text)
    → codec.encode_auto (record { version = pos 1; rules = rules }) ≡ some text
    → codec.decode_auto (text ++ 10 ∷ []) ≡ some (record { version = pos 1; rules = rules })

-- rules.auto.json can be read.
pub record Readable (faults : FileFaults) : Type 0 where
  pub opens : faults.read_auto.open_file ≡ true
  pub stats : faults.read_auto.stat ≡ true
  pub reads : faults.read_auto.read_all ≡ true

length-delete_at :
    (xs : List RedirectRule) (i : ℕ) (r : RedirectRule) (ys : List RedirectRule)
    → delete_at xs i ≡ some (r, ys)
    → length ys ≤ length xs
unfolding delete_at
length-delete_at [] i r ys h = absurd (cc)
length-delete_at (x ∷ xs) zero r ys h =
    let same : xs ≡ ys = ground arith in rw (← same) (omega arith)
length-delete_at (x ∷ xs) (suc i) r ys h = elim (Option-cases (delete_at xs i)) [
  | inl outside ↦ absurd (ground arith)
  | inr ((removed, rest), split) ↦
      let same : x ∷ rest ≡ ys = ground arith in
      rw (← same) (omega (arith, length-delete_at xs i removed rest split))
]

module _ (codec : ConfigCodec) (faults : FileFaults) (readable : Readable faults) where
  written-file :
      (content : Text) (old file : Option File) (mode : ℕ)
      → write_file_atomic faults.write_auto content mode old ≡ (file, true)
      → file ≡ some (record { content = content; mode = mode; regular = true })
  unfolding write_file_atomic
  written-file content old file mode e = ground arith

  private_file :
      (content : Text)
      → read_private faults.windows faults.read_auto
          (some (record { content = content; mode = 0o600; regular = true }))
        ≡ contents content
  unfolding read_private check_private
  private_file content = ground (arith, readable.opens, readable.stats, readable.reads)

  removed-file :
      (answer : Bool) (old file : Option File) → remove_auto answer old ≡ (file, true) → file ≡ none
  unfolding remove_auto
  removed-file answer none file e = ground arith
  removed-file answer (some f) file e = ground arith

  check_auto-short :
      (rules : List RedirectRule)
      → length rules ≤ max_auto_rules
      → check_auto (record { version = pos 1; rules = rules }) ≡ some rules
  unfolding check_auto
  check_auto-short rules h = ground arith

  load-encoded :
      (rules : List RedirectRule) (files : Files) (text : Text)
      → codec.encode_auto (record { version = pos 1; rules = rules }) ≡ some text
      → ReadsBack codec rules
      → length rules ≤ max_auto_rules
      → load_auto_rules codec faults (record files {
        auto = some (record { content = text ++ 10 ∷ []; mode = 0o600; regular = true });
      })
        ≡ some rules
  unfolding load_auto_rules
  load-encoded rules files text e back h =
      rw (private_file (text ++ 10 ∷ []), load_auto_rules)
        (rw (back text e) (check_auto-short rules h))

  load-write :
      (rules : List RedirectRule) (files : Files) (file : Option File)
      → write_auto_rules codec faults rules files.auto ≡ (file, true)
      → ReadsBack codec rules
      → length rules ≤ max_auto_rules
      → load_auto_rules codec faults (record files { auto = file }) ≡ some rules
  unfolding write_auto_rules load_auto_rules read_private
  load-write [] files file e back h =
      let gone = removed-file faults.remove_auto files.auto file e in rw gone
  load-write (rule ∷ rules) files file e back h =
      let doc : AutoRules = record { version = pos 1; rules = rule ∷ rules } in
      elim (Option-cases (codec.encode_auto doc)) [
        | inl failed ↦ absurd (ground arith)
        | inr (text, encoded) ↦
            let wrote : write_file_atomic faults.write_auto (text ++ 10 ∷ []) 0o600 files.auto
                ≡ (file, true) =
              rw (encoded, write_auto_rules) at e in
            let there = written-file (text ++ 10 ∷ []) files.auto file 0o600 wrote in
            subst
              (λ f. load_auto_rules codec faults (record files { auto = f }) ≡ some (rule ∷ rules))
              (sym there) (load-encoded (rule ∷ rules) files text encoded back h)
      ]

  module _ (cfg : Config) (s : Service) (same_rules : cfg.rules ≡ s.base)
      (same_remote : cfg.allow_remote_targets ≡ s.allow_remote) where
    restart_with :
        (auto : List RedirectRule) (router : Router) (files : Files)
        → s.auto_err ≡ false
        → load_auto_rules codec faults files ≡ some auto
        → build s.allow_remote s.base auto ≡ some router
        → new_service codec faults cfg files ≡ some (record (install router s) { auto = auto })
    unfolding new_service new_service_with install install_trust
    restart_with auto router files loaded read ok = ground arith

    change_auto-restart :
        (auto : List RedirectRule) (rule r : RedirectRule) (files : Files)
        → s.auto_err ≡ false
        → ReadsBack codec (change_auto codec faults auto rule s files).0.auto
        → length auto ≤ max_auto_rules
        → (change_auto codec faults auto rule s files).2 ≡ done r
        → new_service codec faults cfg (change_auto codec faults auto rule s files).1
          ≡ some (change_auto codec faults auto rule s files).0
    unfolding change_auto
    change_auto-restart auto rule r files loaded back short e =
        elim (Option-cases (build s.allow_remote s.base auto)) [
          | inl failed ↦ absurd (ground arith)
          | inr (router, ok) ↦ elim (Bool-cases (write_auto_rules codec faults auto files.auto).1) [
            | inr unsaved ↦ absurd (ground arith)
            | inl saved ↦
                rw (ok, saved, change_auto)
                  (restart_with auto router _ loaded
                    (load-write auto files _
                      (λ i. ((write_auto_rules codec faults auto files.auto).0, saved i))
                      (rw (ok, saved, change_auto) at back) short)
                    ok)
          ]
        ]

    remove_auto_rule-restart :
        (domain : Text) (r : RedirectRule) (files : Files)
        → s.auto_err ≡ false
        → ReadsBack codec (remove_auto_rule codec faults domain s files).0.auto
        → length s.auto ≤ max_auto_rules
        → (remove_auto_rule codec faults domain s files).2 ≡ done r
        → new_service codec faults cfg (remove_auto_rule codec faults domain s files).1
          ≡ some (remove_auto_rule codec faults domain s files).0
    unfolding remove_auto_rule
    remove_auto_rule-restart domain r files loaded back short e =
        elim (Option-cases (index_of_domain s.auto domain)) [
          | inl nobody ↦ absurd (ground arith)
          | inr (i, found) ↦ elim (Option-cases (delete_at s.auto i)) [
            | inl outside ↦ absurd (ground arith)
            | inr ((removed, auto), split) ↦
                let run : remove_auto_rule codec faults domain s files
                    ≡ change_auto codec faults auto removed s files =
                  rw (found, remove_auto_rule, split) in
                rw run (
                  change_auto-restart auto removed r files loaded
                    (subst (λ x. ReadsBack codec x.0.auto) run back)
                    (omega (arith, length-delete_at s.auto i removed auto split, short))
                    (rw run at e))
          ]
        ]

    -- After a `RemoveRule` that is done on at most 100 automatic rules, a lemmingd that starts with
    -- the same config.json and reads what is left of rules.auto.json has exactly the rules, the
    -- router and the trust list of the running one, if encoding/json reads back the document of the
    -- rules that are left, where it has written it, and the file can be read.
    pub remove_rule-restart :
        (domain : Text) (r : RedirectRule) (files : Files)
        → ReadsBack codec (remove_rule codec faults domain s files).0.auto
        → length s.auto ≤ max_auto_rules
        → (remove_rule codec faults domain s files).2 ≡ done r
        → new_service codec faults cfg (remove_rule codec faults domain s files).1
          ≡ some (remove_rule codec faults domain s files).0
    unfolding remove_rule
    remove_rule-restart domain r files back short e =
        elim (Bool-cases (text_eq (trim_space domain) [])) [
          | inl nameless ↦ absurd (ground arith)
          | inr named ↦ elim (Bool-cases s.auto_err) [
            | inl err ↦ absurd (ground arith)
            | inr loaded ↦ elim (Bool-cases (is_some (index_of_domain s.base domain))) [
              | inl fixed ↦ absurd (ground arith)
              | inr free ↦
                  let run : remove_rule codec faults domain s files
                      ≡ remove_auto_rule codec faults domain s files =
                    simp (named, loaded, free) in
                  rw run (
                    remove_auto_rule-restart domain r files loaded
                      (subst (λ x. ReadsBack codec x.0.auto) run back) short (rw run at e))
            ]
          ]
        ]

    -- After an `AddRule` that is done, a lemmingd that starts with the same config.json and reads
    -- the rules.auto.json that was written has exactly the rules, the router and the trust list of
    -- the running one, if encoding/json reads back the document of the new rules, where it has
    -- written it, and the file can be read.
    pub add_rule-restart :
        (rule r : RedirectRule) (files : Files)
        → ReadsBack codec (add_rule codec faults rule s files).0.auto
        → (add_rule codec faults rule s files).2 ≡ done r
        → new_service codec faults cfg (add_rule codec faults rule s files).1
          ≡ some (add_rule codec faults rule s files).0
    unfolding add_rule
    add_rule-restart rule r files back e = elim (Bool-cases s.auto_err) [
      | inl err ↦ absurd (ground arith)
      | inr loaded ↦ elim (Bool-cases (ltb (length s.auto) max_auto_rules)) [
        | inr full ↦ absurd (ground arith)
        | inl room ↦ elim (Option-cases (validate_rule rule s.allow_remote)) [
          | inr (x, bad) ↦ absurd (ground arith)
          | inl good ↦ elim (Option-cases (taken_domain s.base s.auto rule.domains)) [
            | inr (d, old) ↦ absurd (ground arith)
            | inl free ↦
                let short : length (s.auto ++ rule ∷ []) ≤ max_auto_rules =
                  omega (arith, length-append s.auto (rule ∷ []), ltb→lt _ _ room) in
                let run : add_rule codec faults rule s files
                    ≡ change_auto codec faults (s.auto ++ rule ∷ []) rule s files =
                  simp (loaded, room, good, free) in
                rw run (
                  change_auto-restart (s.auto ++ rule ∷ []) rule r files loaded
                    (subst (λ x. ReadsBack codec x.0.auto) run back) short (rw run at e))
          ]
        ]
      ]
    ]

-- ===== src/Lemming/Service/Runs.antt =====
-- Runs of the service of internal/lemming/service.go: any sequence of changes after `New`.
use hamsterd.Common.{◌≡◌, sym, subst, some, Text}
use hamsterd.Config.Rule.{RedirectRule}
use hamsterd.Config.Settings.{Config}
use hamsterd.Config.AutoRules.{ConfigCodec, Files, FileFaults}
use hamsterd.Lemming.Service.{Service, new_service, add_rule, remove_rule, merge}
use hamsterd.Lemming.Service.Invariant.{
  IsConsistent, add_rule-IsConsistent, remove_rule-IsConsistent, merge-IsConsistent,
  new_service-IsConsistent,
}

-- The service with its files.
abbrev pub Running : Type 0
Running = Service × Files

-- One change, with the answers of the system to it. `edits` is a change of the files from outside.
pub data Step (codec : ConfigCodec) (r t : Running) : Type 0 where
  adds :
      (faults : FileFaults) (rule : RedirectRule)
      → t ≡ ((add_rule codec faults rule r.0 r.1).0, (add_rule codec faults rule r.0 r.1).1)
      → Step codec r t
  removes :
      (faults : FileFaults) (domain : Text)
      → t
        ≡ ((remove_rule codec faults domain r.0 r.1).0, (remove_rule codec faults domain r.0 r.1).1)
      → Step codec r t
  merges :
      (faults : FileFaults)
      → t ≡ ((merge codec faults r.0 r.1).0, (merge codec faults r.0 r.1).1)
      → Step codec r t
  edits : (files : Files) → t ≡ (r.0, files) → Step codec r t

pub data Reach (codec : ConfigCodec) (r : Running) : Running → Type 0 where
  here : Reach codec r r
  next : {s t : Running} → Reach codec r s → Step codec s t → Reach codec r t

module _ (codec : ConfigCodec) where
  Step-IsConsistent : {r t : Running} → Step codec r t → IsConsistent r.0 → IsConsistent t.0
  Step-IsConsistent {r} (adds faults rule e) c =
      subst (λ (x : Running). IsConsistent x.0) (sym e)
        (add_rule-IsConsistent codec faults rule r.0 r.1 c)
  Step-IsConsistent {r} (removes faults domain e) c =
      subst (λ (x : Running). IsConsistent x.0) (sym e)
        (remove_rule-IsConsistent codec faults domain r.0 r.1 c)
  Step-IsConsistent {r} (merges faults e) c =
      subst (λ (x : Running). IsConsistent x.0) (sym e) (merge-IsConsistent codec faults r.0 r.1 c)
  Step-IsConsistent {r} (edits files e) c = subst (λ (x : Running). IsConsistent x.0) (sym e) c

  -- After `New`, and after any sequence of calls of `AddRule`, `RemoveRule` and `Merge`, on all their
  -- branches and with any edits of the files in between, the router is the one that is built from the
  -- rules, and the trust list has the targets and domains of that router.
  pub Reach-IsConsistent :
      (faults : FileFaults) (cfg : Config) (files : Files) (s : Service) {r : Running}
      → new_service codec faults cfg files ≡ some s
      → Reach codec (s, files) r
      → IsConsistent r.0
  Reach-IsConsistent faults cfg files s started here =
      new_service-IsConsistent codec faults cfg files s started
  Reach-IsConsistent faults cfg files s started (next run st) =
      Step-IsConsistent st (Reach-IsConsistent faults cfg files s started run)

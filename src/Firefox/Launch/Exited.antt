-- ===== src/Firefox/Launch/Exited.antt =====
-- The exit of a Firefox that internal/firefox/firefox.go has launched.
use hamsterd.Common.{◌≡◌, subst, ◌∙◌, true, false, none}
use hamsterd.Common.Int.{ℤ}
use hamsterd.Firefox.Setup.{FirefoxConfig, Host}
use hamsterd.Firefox.Lease.{ExitFaults, remove_exited_lease, ProfileLease, Profile}
use hamsterd.Firefox.Lease.Exit.{remove_exited_lease-removes}
use hamsterd.Firefox.Lease.Words.{IsPid}
use hamsterd.Firefox.Launch.{LaunchFaults, launched, prepare_and_launch}
use hamsterd.Firefox.Launch.Left.{IsObedient, Outcome, prepare_and_launch-Outcome}

-- Every call of `removeExitedLease` succeeds.
pub record IsGranted (faults : ExitFaults) : Type 0 where
  pub mkdir : faults.mkdir ≡ true
  pub reads : faults.reads ≡ true
  pub removes : faults.removes ≡ true
  pub removes_preparation : faults.removes_preparation ≡ true

exit_launched :
    (exit : ExitFaults) (lease : ProfileLease) (pid : ℤ) (p q : Profile)
    → IsGranted exit
    → p.preparation ≡ false
    → IsPid pid
    → Outcome p q (launched lease pid)
    → let r = remove_exited_lease exit lease q in (r.lease ≡ none) × (r.preparation ≡ false)
exit_launched exit lease pid p q g f h (a, (b, (c, d))) =
    remove_exited_lease-removes exit lease pid q g.mkdir g.reads g.removes g.removes_preparation
      (a ∙ f) c h b

-- For a system that removes files, writes the lease a second time, stops processes and draws a token,
-- and a profile with neither a process nor a preparation lock: when a launch succeeds
-- and its Firefox exits later, and every call of the removal succeeds, the profile has neither a lease
-- nor a preparation lock.
pub remove_exited_lease-prepare_and_launch :
    (host : Host) (faults : LaunchFaults) (exit : ExitFaults) (c : FirefoxConfig) (p : Profile)
    (lease : ProfileLease) (pid : ℤ)
    → IsObedient faults
    → IsGranted exit
    → p.process ≡ none
    → p.preparation ≡ false
    → (prepare_and_launch host faults c p).1 ≡ launched lease pid
    → IsPid pid
    → let r = remove_exited_lease exit lease (prepare_and_launch host faults c p).0 in
      (r.lease ≡ none) × (r.preparation ≡ false)
remove_exited_lease-prepare_and_launch host faults exit c p lease pid o g n f e h =
    let q = prepare_and_launch host faults c p in
    exit_launched exit lease pid p q.0 g f h
      (subst (λ x. Outcome p q.0 x) e (prepare_and_launch-Outcome host faults c p o n))

-- ===== src/Firefox/Launch.antt =====
-- `prepareAndLaunch` of internal/firefox/firefox.go.
mod Attempts
mod Kept
pub mod Left
pub mod Exited
use hamsterd.Common.{
  ℕ, Bool, true, false, Option, none, some, List, [], ◌∷◌, ◌++◌, Text, codes, not, ◌||◌,
  if◌then◌else◌,
}
use hamsterd.Common.Int.{ℤ}
use hamsterd.Firefox.Setup.{
  FirefoxConfig, Host, LaunchError, no_certutil, no_firefox, not_created, not_protected,
  preparing_elsewhere, in_use, lock_unknown, no_lease, no_preferences, no_database, not_trusted,
  not_started, not_locked, not_recorded, validate, find_certutil, find_firefox, preference_target,
  preferences,
}
use hamsterd.Firefox.Lease.{
  ProfileLease, Profile, Attempt, acquire_preparation, remove_preparation, acquire_lease,
  update_lease, remove_lease,
}

abbrev pub certificate_nickname : Text
certificate_nickname = codes "lemmingd local CA"

-- What os.Process.Kill answers: no error, os.ErrProcessDone, or another error.
pub data Kill : Type 0 where
  killed process_done not_killed : Kill

-- One round of `waitForFirefoxProfileLock`: whether the first look finds that Firefox exited,
-- what `profileLocked` answers (`none` is an error), and whether it exits before the next tick.
pub record Round : Type 0 where
  pub exited : Bool
  pub locked : Option Bool
  pub exits : Bool

-- What the system answers to one launch.
pub record LaunchFaults : Type 0 where
  pub mkdir_profile : Bool
  pub chmod_profile : Bool
  pub mkdir : Bool
  pub locked : Option Bool
  pub random : Option (List ℕ)
  pub first : Attempt
  pub second : Attempt
  -- os.Getpid
  pub self : ℤ
  pub writes_prefs : Bool
  -- What a failed write leaves in user.js.
  pub partial_prefs : Option Text
  -- Whether cert9.db is there; `none` is another error of os.Stat.
  pub database : Option Bool
  -- Whether a program with these arguments succeeds.
  pub run : Text → List Text → Bool
  -- The process of a program with these arguments.
  pub start : Text → List Text → Option ℤ
  -- The rounds of the wait; after the last one the timeout comes before the tick.
  pub round : Round
  pub rounds : List Round
  pub kill : Kill
  pub writes_update : Bool
  pub partial_update : Option Text
  pub reads : Bool
  pub removes : Bool
  pub removes_preparation : Bool

pub data Launched : Type 0 where
  launched : ProfileLease → ℤ → Launched
  -- The flag tells that Firefox could not be stopped.
  refused : LaunchError → Bool → Launched

unfoldable pub set_process : Option ℤ → Profile → Profile
set_process process p = record {
  preparation = p.preparation;
  lease = p.lease;
  prefs = p.prefs;
  process = process;
}

unfoldable pub set_prefs : Option Text → Profile → Profile
set_prefs prefs p = record {
  preparation = p.preparation;
  lease = p.lease;
  prefs = prefs;
  process = p.process;
}

-- `writePreferences`: the profile and whether there is no error.
unfoldable pub write_preferences : Bool → Option Text → Text → Profile → Profile × Bool
write_preferences writes partial address p = elim (preference_target address) [
  | none ↦ (p, false)
  | some (host, port) ↦
      (set_prefs (if writes then some (preferences host port) else partial) p, writes)
]

-- `stopCommand`: the profile and whether Firefox could not be stopped. Behind a successful kill the
-- function waits until Firefox exits.
unfoldable pub stop_command : Kill → Profile → Profile × Bool
stop_command killed p = (set_process none p, false)
stop_command process_done p = (set_process none p, false)
stop_command not_killed p = (p, true)

-- The end of the wait: the native lock is held, Firefox exited, or another error.
pub data Waited : Type 0 where
  lock_held exited_early wait_failed : Waited

-- `waitForFirefoxProfileLock`
unfoldable pub wait_for_lock : Round → List Round → Waited
wait_for_lock r [] = if r.exited then exited_early else elim r.locked [
  | none ↦ wait_failed
  | some locked ↦ if locked then lock_held else if r.exits then exited_early else wait_failed
]
wait_for_lock r (next ∷ rounds) =
    let rest = wait_for_lock next rounds in
    if r.exited then exited_early else elim r.locked [
      | none ↦ wait_failed
      | some locked ↦ if locked then lock_held else if r.exits then exited_early else rest
    ]

unfoldable pub refuse_stopped : LaunchError → Kill → Profile → Profile × Launched
refuse_stopped e kill p = let (q, stuck) = stop_command kill p in (q, refused e stuck)

-- Behind runner.Start.
unfoldable pub started : LaunchFaults → ProfileLease → ℤ → Profile → Profile × Launched
started faults lease pid p = elim (wait_for_lock faults.round faults.rounds) [
  | exited_early ↦ refuse_stopped not_locked faults.kill (set_process none p)
  | wait_failed ↦ refuse_stopped not_locked faults.kill p
  | lock_held ↦
      let (updated, q, written) =
        update_lease faults.writes_update faults.partial_update lease pid p in
      if written then (q, launched updated pid) else refuse_stopped not_recorded faults.kill q
]

unfoldable pub start_firefox :
    LaunchFaults → FirefoxConfig → Text → ProfileLease → Profile → Profile × Launched
start_firefox faults c firefox lease p =
    elim (faults.start firefox (codes "-no-remote" ∷ codes "-profile" ∷ c.profile ∷ c.url ∷ [])) [
      | none ↦ (p, refused not_started false)
      | some pid ↦ started faults lease pid (set_process (some pid) p)
    ]

abbrev database_of : FirefoxConfig → Text
database_of c = codes "sql:" ++ c.profile

-- certutil -N, if cert9.db is missing; `some` is an error.
unfoldable pub prepare_database : LaunchFaults → FirefoxConfig → Text → Option LaunchError
prepare_database faults c certutil = elim faults.database [
  | none ↦ some no_database
  | some found ↦
      if found
        || faults.run certutil
            (codes "-N" ∷ codes "-d" ∷ database_of c ∷ codes "--empty-password" ∷ [])
      then none
      else some no_database
]

-- certutil -A; the certutil -D before it may fail.
unfoldable pub trust_ca : LaunchFaults → FirefoxConfig → Text → Bool
trust_ca faults c certutil = faults.run certutil (
    codes "-A"
    ∷ codes "-d"
    ∷ database_of c
    ∷ codes "-n"
    ∷ certificate_nickname
    ∷ codes "-t"
    ∷ codes "C,,"
    ∷ codes "-i"
    ∷ c.ca_certificate
    ∷ [])

-- Behind `writePreferences`.
unfoldable pub with_preferences :
    LaunchFaults → FirefoxConfig → Text → Text → ProfileLease → Profile → Profile × Launched
with_preferences faults c certutil firefox lease p = elim (prepare_database faults c certutil) [
  | some e ↦ (p, refused e false)
  | none ↦
      if trust_ca faults c certutil
      then start_firefox faults c firefox lease p
      else (p, refused not_trusted false)
]

-- Behind `acquireProfileLease`.
unfoldable pub with_lease :
    LaunchFaults → FirefoxConfig → Text → Text → ProfileLease → Profile → Profile × Launched
with_lease faults c certutil firefox lease p =
    let (q, written) =
      write_preferences faults.writes_prefs faults.partial_prefs c.proxy_address p in
    if written
    then with_preferences faults c certutil firefox lease q
    else (q, refused no_preferences false)

-- The deferred removal of a lease that is not kept.
unfoldable pub release_lease : LaunchFaults → ProfileLease → Profile × Launched → Profile × Launched
release_lease faults lease (p, launched l pid) = (p, launched l pid)
release_lease faults lease (p, refused e stuck) =
    (remove_lease faults.reads faults.removes lease p, refused e stuck)

-- Behind the result of `acquireProfileLease`.
unfoldable pub with_acquired :
    LaunchFaults → FirefoxConfig → Text → Text → Profile → Option ProfileLease → Profile × Launched
with_acquired faults c certutil firefox p none = (p, refused no_lease false)
with_acquired faults c certutil firefox p (some lease) =
    release_lease faults lease (with_lease faults c certutil firefox lease p)

-- Behind `acquirePreparationLock`.
unfoldable pub with_preparation :
    LaunchFaults → FirefoxConfig → Text → Text → Profile → Profile × Launched
with_preparation faults c certutil firefox p = elim faults.locked [
  | none ↦ (p, refused lock_unknown false)
  | some locked ↦
      if locked
      then (p, refused in_use false)
      else let (q, acquired) =
          acquire_lease faults.random faults.first faults.second faults.self p in
        with_acquired faults c certutil firefox q acquired
]

unfoldable pub prepare_profile :
    LaunchFaults → FirefoxConfig → Text → Text → Profile → Profile × Launched
prepare_profile faults c certutil firefox p =
    if not faults.mkdir_profile
    then (p, refused not_created false)
    else if not faults.chmod_profile
    then (p, refused not_protected false)
    else elim (acquire_preparation faults.mkdir p) [
      | none ↦ (p, refused preparing_elsewhere false)
      | some q ↦
          let (r, result) = with_preparation faults c certutil firefox q in
          (remove_preparation faults.removes_preparation r, result)
    ]

-- `prepareAndLaunch`
unfoldable pub prepare_and_launch :
    Host → LaunchFaults → FirefoxConfig → Profile → Profile × Launched
prepare_and_launch host faults c p = elim (validate host c) [
  | some e ↦ (p, refused e false)
  | none ↦ elim (find_certutil host c.nss_certutil) [
    | none ↦ (p, refused no_certutil false)
    | some certutil ↦ elim (find_firefox host c.binary) [
      | none ↦ (p, refused no_firefox false)
      | some firefox ↦ prepare_profile faults c certutil firefox p
    ]
  ]
]

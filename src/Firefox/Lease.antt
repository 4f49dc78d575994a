-- ===== src/Firefox/Lease.antt =====
-- The launcher lease and the preparation lock of internal/firefox/firefox.go.
pub mod Words
pub mod Exit
use hamsterd.Common.{
  ℕ, Bool, true, false, Option, none, some, List, [], ◌∷◌, ◌++◌, Text, codes, text_eq, not, ◌&&◌,
  ◌||◌, if◌then◌else◌,
}
use hamsterd.Common.Int.{ℤ, pos, ltb_ℤ}
use hamsterd.Common.Fields.{fields}
use hamsterd.Common.Numbers.{parse_int, format_int}
use hamsterd.Control.Server.{hex_text}

-- `state`: "preparing" or "running".
pub data LeaseState : Type 0 where
  preparing running : LeaseState

unfoldable pub state_text : LeaseState → Text
state_text preparing = codes "preparing"
state_text running = codes "running"

-- The parts of `profileLease` behind its path.
pub record ProfileLease : Type 0 where
  pub state : LeaseState
  pub token : Text

-- What `parseLease` reads: a state, a process and a token.
pub record Parsed : Type 0 where
  pub state : LeaseState
  pub pid : ℤ
  pub token : Text

unfoldable pub lease_state : Text → Option LeaseState
lease_state word =
    if text_eq word (codes "preparing")
    then some preparing
    else if text_eq word (codes "running")
    then some running
    else none

-- strconv.Atoi, and the test of the number.
unfoldable pub parse_pid : Text → Option ℤ
parse_pid word = elim (parse_int word) [
  | none ↦ none
  | some pid ↦ if ltb_ℤ pid (pos 1) then none else some pid
]

unfoldable pub parsed_lease : Option LeaseState → Option ℤ → Text → Option Parsed
parsed_lease none pid token = none
parsed_lease (some state) none token = none
parsed_lease (some state) (some pid) token =
    if text_eq token [] then none else some (record { state = state; pid = pid; token = token })

-- Pre-0.1.3 development builds.
unfoldable pub old_lease : Option ℤ → Option Parsed
old_lease none = none
old_lease (some pid) = some (record { state = preparing; pid = pid; token = [] })

unfoldable pub lease_of : List Text → Option Parsed
lease_of [] = none
lease_of (pid ∷ []) = old_lease (parse_pid pid)
lease_of (a ∷ b ∷ []) = none
lease_of (state ∷ pid ∷ token ∷ []) = parsed_lease (lease_state state) (parse_pid pid) token
lease_of (a ∷ b ∷ c ∷ d ∷ s) = none

-- `parseLease`; `none` is an error.
unfoldable pub parse_lease : Text → Option Parsed
parse_lease content = lease_of (fields content)

-- `contents`
unfoldable pub contents : ProfileLease → ℤ → Text
contents lease pid =
    state_text lease.state ++ (b' ' ∷ (format_int pid ++ (b' ' ∷ (lease.token ++ (b'\n' ∷ [])))))

-- `newLeaseToken`, from what rand.Read gives.
unfoldable pub new_lease_token : Option (List ℕ) → Option Text
new_lease_token none = none
new_lease_token (some bytes) = some (hex_text bytes)

-- The files of the profile and the process of Firefox that uses it.
pub record Profile : Type 0 where
  -- Whether the directory of `preparationLockName` is there.
  pub preparation : Bool
  -- The file of `launcherLockName`.
  pub lease : Option Text
  -- user.js
  pub prefs : Option Text
  -- The Firefox that the launcher started.
  pub process : Option ℤ

-- `acquirePreparationLock`: os.Mkdir, which `mkdir` may refuse.
unfoldable pub acquire_preparation : Bool → Profile → Option Profile
acquire_preparation mkdir p =
    if p.preparation || not mkdir
    then none
    else some (record { preparation = true; lease = p.lease; prefs = p.prefs; process = p.process })

-- `preparationLock.remove`, which `removes` may refuse.
unfoldable pub remove_preparation : Bool → Profile → Profile
remove_preparation removes p = record {
  preparation = p.preparation && not removes;
  lease = p.lease;
  prefs = p.prefs;
  process = p.process;
}

unfoldable pub put_lease : Option Text → Profile → Profile
put_lease lease p = record {
  preparation = p.preparation;
  lease = lease;
  prefs = p.prefs;
  process = p.process;
}

-- os.Remove of the lease file, which `removes` may refuse.
unfoldable pub unlink_lease : Bool → Profile → Profile
unlink_lease removes p = if removes then put_lease none p else p

-- What the system answers to one attempt: os.OpenFile of a new file, the write, the close, os.Remove.
pub record Attempt : Type 0 where
  pub opens : Bool
  pub writes : Bool
  -- What a write that fails leaves in the file.
  pub partial : Text
  pub closes : Bool
  pub removes : Bool

-- One attempt: the lease, `none` for another attempt, or an error.
pub data Attempted : Type 0 where
  acquired : ProfileLease → Attempted
  again failed : Attempted

unfoldable pub attempt_lease : Attempt → ProfileLease → ℤ → Profile → Profile × Attempted
attempt_lease a lease pid p = elim p.lease [
  | some old ↦ if a.removes then (put_lease none p, again) else (p, failed)
  | none ↦
      if not a.opens
      then (p, failed)
      else if not a.writes
      then (unlink_lease a.removes (put_lease (some a.partial) p), failed)
      else if not a.closes
      then (unlink_lease a.removes (put_lease (some (contents lease pid)) p), failed)
      else (put_lease (some (contents lease pid)) p, acquired lease)
]

-- The loop over two attempts; `none` is an error.
unfoldable pub attempt_all :
    List Attempt → ProfileLease → ℤ → Profile → Profile × Option ProfileLease
attempt_all [] lease pid p = (p, none)
attempt_all (a ∷ attempts) lease pid p =
    let (q, r) = attempt_lease a lease pid p in
    elim r [
      | acquired l ↦ (q, some l)
      | again ↦ attempt_all attempts lease pid q
      | failed ↦ (q, none)
    ]

-- `acquireProfileLease`
unfoldable pub acquire_lease :
    Option (List ℕ) → Attempt → Attempt → ℤ → Profile → Profile × Option ProfileLease
acquire_lease random first second pid p = elim (new_lease_token random) [
  | none ↦ (p, none)
  | some token ↦
      attempt_all (first ∷ second ∷ []) (record { state = preparing; token = token }) pid p
]

-- `update`: the lease, the profile and whether os.WriteFile succeeds; a write that fails leaves
-- `partial`.
unfoldable pub update_lease :
    Bool → Option Text → ProfileLease → ℤ → Profile → ProfileLease × Profile × Bool
update_lease writes partial lease pid p =
    let updated : ProfileLease = record { state = running; token = lease.token } in
    (updated, put_lease (if writes then some (contents updated pid) else partial) p, writes)

-- Whether `remove` finds its own token in the file.
unfoldable pub holds_token : ProfileLease → Option Text → Bool
holds_token lease none = false
holds_token lease (some content) = elim (parse_lease content) [
  | none ↦ false
  | some parsed ↦ text_eq parsed.token lease.token
]

-- `profileLease.remove`; `reads` and `removes` are the answers of os.ReadFile and os.Remove.
unfoldable pub remove_lease : Bool → Bool → ProfileLease → Profile → Profile
remove_lease reads removes lease p =
    if reads && holds_token lease p.lease then unlink_lease removes p else p

-- What the system answers to `removeExitedLease`.
pub record ExitFaults : Type 0 where
  pub mkdir : Bool
  pub reads : Bool
  pub removes : Bool
  pub removes_preparation : Bool

-- `removeExitedLease`
unfoldable pub remove_exited_lease : ExitFaults → ProfileLease → Profile → Profile
remove_exited_lease faults lease p = elim (acquire_preparation faults.mkdir p) [
  | none ↦ p
  | some q ↦
      remove_preparation faults.removes_preparation
        (remove_lease faults.reads faults.removes lease q)
]

-- ===== src/Firefox/Launch/Kept.antt =====
-- What the steps of a launch of internal/firefox/firefox.go keep.
use hamsterd.Common.{
  ◌≡◌, refl, ◌∙◌, ◌⊎◌, inl, inr, Bool, true, false, Option, none, some, [], ◌∷◌, Text, codes, arith,
  Option-cases, Bool-cases,
}
use hamsterd.Common.Int.{ℤ}
use hamsterd.Firefox.Setup.{FirefoxConfig, LaunchError}
use hamsterd.Firefox.Lease.{ProfileLease, Profile, update_lease, contents, put_lease}
use hamsterd.Firefox.Launch.{
  Kill, killed, process_done, not_killed, Waited, lock_held, exited_early, wait_failed,
  wait_for_lock, LaunchFaults, Launched, launched, refused, set_process, set_prefs,
  write_preferences, stop_command, refuse_stopped, started, start_firefox, prepare_database,
  trust_ca, with_preferences, with_lease,
}

abbrev pub can_stop : Kill → Bool
can_stop killed = true
can_stop process_done = true
can_stop not_killed = false

Waited-cases : (w : Waited) → (w ≡ lock_held) ⊎ ((w ≡ exited_early) ⊎ (w ≡ wait_failed))
Waited-cases lock_held = inl refl
Waited-cases exited_early = inr (inl refl)
Waited-cases wait_failed = inr (inr refl)

-- A launch with a lease keeps the preparation lock. When it is refused, it keeps the lease as well and
-- stops its process; otherwise the lease names the process.
abbrev pub KeptBy : ProfileLease → Profile → Profile → Launched → Type 0
KeptBy l p q (refused e stuck) =
    (q.preparation ≡ p.preparation) × ((q.lease ≡ p.lease) × (q.process ≡ none))
KeptBy l p q (launched r pid) =
    (q.preparation ≡ p.preparation)
    × ((q.lease ≡ some (contents r pid)) × ((r.token ≡ l.token) × (q.process ≡ some pid)))

refuse_stopped-KeptBy :
    (e : LaunchError) (kill : Kill) (l : ProfileLease) (p : Profile)
    → can_stop kill ≡ true
    → let r = refuse_stopped e kill p in KeptBy l p r.0 r.1
unfolding refuse_stopped stop_command set_process
refuse_stopped-KeptBy e killed l p k = (refl, (refl, refl))
refuse_stopped-KeptBy e process_done l p k = (refl, (refl, refl))
refuse_stopped-KeptBy e not_killed l p k = absurd (ground (arith, k))

started-KeptBy :
    (faults : LaunchFaults) (l : ProfileLease) (pid : ℤ) (p : Profile)
    → faults.writes_update ≡ true
    → can_stop faults.kill ≡ true
    → let r = started faults l pid (set_process (some pid) p) in KeptBy l p r.0 r.1
unfolding started set_process update_lease put_lease
started-KeptBy faults l pid p u k = elim (Waited-cases (wait_for_lock faults.round faults.rounds)) [
  | inl e ↦ rw (started, e, update_lease, u) (refl, (refl, (refl, refl)))
  | inr (inl e) ↦ rw (started, e) (refuse_stopped-KeptBy _ faults.kill l _ k)
  | inr (inr e) ↦ rw (started, e) (refuse_stopped-KeptBy _ faults.kill l _ k)
]

start_firefox-KeptBy :
    (faults : LaunchFaults) (c : FirefoxConfig) (firefox : Text) (l : ProfileLease) (p : Profile)
    → faults.writes_update ≡ true
    → can_stop faults.kill ≡ true
    → p.process ≡ none
    → let r = start_firefox faults c firefox l p in KeptBy l p r.0 r.1
unfolding start_firefox
start_firefox-KeptBy faults c firefox l p u k n =
    elim (Option-cases
      (faults.start firefox (codes "-no-remote" ∷ codes "-profile" ∷ c.profile ∷ c.url ∷ []))) [
        | inl e ↦ rw (start_firefox, e) (refl, (refl, n))
        | inr (pid, e) ↦ rw (start_firefox, e) (started-KeptBy faults l pid p u k)
      ]

with_preferences-KeptBy :
    (faults : LaunchFaults) (c : FirefoxConfig) (certutil firefox : Text) (l : ProfileLease)
    (p : Profile)
    → faults.writes_update ≡ true
    → can_stop faults.kill ≡ true
    → p.process ≡ none
    → let r = with_preferences faults c certutil firefox l p in KeptBy l p r.0 r.1
unfolding with_preferences
with_preferences-KeptBy faults c certutil firefox l p u k n =
    elim (Option-cases (prepare_database faults c certutil)) [
      | inr (d, f) ↦ rw (with_preferences, f) (refl, (refl, n))
      | inl f ↦ elim (Bool-cases (trust_ca faults c certutil)) [
        | inr t ↦ rw (with_preferences, f, t) (refl, (refl, n))
        | inl t ↦ rw (with_preferences, f, t) (start_firefox-KeptBy faults c firefox l p u k n)
      ]
    ]

-- The preferences leave the rest.
record SameRest (p q : Profile) : Type 0 where
  preparation : q.preparation ≡ p.preparation
  lease : q.lease ≡ p.lease
  process : q.process ≡ p.process

write_preferences-SameRest :
    (writes : Bool) (partial : Option Text) (address : Text) (p : Profile)
    → SameRest p (write_preferences writes partial address p).0
unfolding write_preferences set_prefs
write_preferences-SameRest writes partial address p = record {
  preparation = ground arith;
  lease = ground arith;
  process = ground arith;
}

SameRest-KeptBy :
    (l : ProfileLease) (p p' q : Profile) (r : Launched)
    → SameRest p p'
    → KeptBy l p' q r
    → KeptBy l p q r
SameRest-KeptBy l p p' q (refused e stuck) s (a, (b, c)) = (a ∙ s.preparation, (b ∙ s.lease, c))
SameRest-KeptBy l p p' q (launched r pid) s (a, b) = (a ∙ s.preparation, b)

pub with_lease-KeptBy :
    (faults : LaunchFaults) (c : FirefoxConfig) (certutil firefox : Text) (l : ProfileLease)
    (p : Profile)
    → faults.writes_update ≡ true
    → can_stop faults.kill ≡ true
    → p.process ≡ none
    → let r = with_lease faults c certutil firefox l p in KeptBy l p r.0 r.1
unfolding with_lease
with_lease-KeptBy faults c certutil firefox l p u k n =
    let w = write_preferences faults.writes_prefs faults.partial_prefs c.proxy_address p in
    let s = write_preferences-SameRest faults.writes_prefs faults.partial_prefs c.proxy_address p in
    elim (Bool-cases w.1) [
      | inr e ↦ rw (with_lease, e) (s.preparation, (s.lease, s.process ∙ n))
      | inl e ↦
          let r = with_preferences faults c certutil firefox l w.0 in
          rw (with_lease, e)
            (SameRest-KeptBy l p w.0 r.0 r.1 s
              (with_preferences-KeptBy faults c certutil firefox l w.0 u k (s.process ∙ n)))
    ]

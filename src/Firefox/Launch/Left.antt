-- ===== src/Firefox/Launch/Left.antt =====
-- What a launch of internal/firefox/firefox.go leaves behind.
use hamsterd.Common.{
  ℕ, ◌≡◌, refl, sym, subst, ◌∙◌, ◌⊎◌, inl, inr, Bool, true, false, Option, none, some, List, [],
  ◌∷◌, Text, text_eq_refl, arith, Option-cases, Bool-cases,
}
use hamsterd.Common.Int.{ℤ}
use hamsterd.Common.Fields.{IsWord}
use hamsterd.Firefox.Setup.{FirefoxConfig, Host, validate, find_certutil, find_firefox}
use hamsterd.Control.Server.{hex_text}
use hamsterd.Firefox.Lease.{
  preparing, ProfileLease, Profile, Attempt, attempt_all, acquire_preparation, remove_preparation,
  acquire_lease, remove_lease, contents, put_lease, unlink_lease, new_lease_token, holds_token,
}
use hamsterd.Firefox.Lease.Exit.{holds_token_iff}
use hamsterd.Firefox.Lease.Words.{IsPid, hex_text-IsWord}
use hamsterd.Firefox.Launch.{
  LaunchFaults, Launched, launched, refused, with_lease, release_lease, with_acquired,
  with_preparation, prepare_profile, prepare_and_launch,
}
use hamsterd.Firefox.Launch.Attempts.{SameBut, LeaseAfter, acquire_two}
use hamsterd.Firefox.Launch.Kept.{can_stop, KeptBy, with_lease-KeptBy}

-- Random bytes, if there are any, and one at least.
abbrev IsDrawn : Option (List ℕ) → Type 0
IsDrawn none = Unit
IsDrawn (some []) = ⊥
IsDrawn (some (c ∷ bytes)) = Unit

-- The system removes files, writes the lease again and stops processes.
pub record IsObedient (faults : LaunchFaults) : Type 0 where
  pub drawn : IsDrawn faults.random
  pub self : IsPid faults.self
  pub first : faults.first.removes ≡ true
  pub second : faults.second.removes ≡ true
  pub update : faults.writes_update ≡ true
  pub reads : faults.reads ≡ true
  pub removes : faults.removes ≡ true
  pub removes_preparation : faults.removes_preparation ≡ true
  pub kill : can_stop faults.kill ≡ true

-- The profile before and after: the same preparation lock, no process, and no lease but one that
-- was there.
pub record IsLeft (p q : Profile) : Type 0 where
  pub preparation : q.preparation ≡ p.preparation
  pub process : q.process ≡ none
  pub lease : (q.lease ≡ none) ⊎ (q.lease ≡ p.lease)

holds_own :
    (l : ProfileLease) (pid : ℤ)
    → IsWord l.token
    → IsPid pid
    → holds_token l (some (contents l pid)) ≡ true
holds_own l pid w h = holds_token_iff l l pid w h ∙ text_eq_refl l.token

-- What a launch leaves behind a result, for the lease and the profile before: nothing when refused,
-- or the lease of the process.
abbrev pub Outcome : Profile → Profile → Launched → Type 0
Outcome p q (refused e stuck) = IsLeft p q
Outcome p q (launched r pid) =
    (q.preparation ≡ p.preparation)
    × ((q.lease ≡ some (contents r pid)) × (IsWord r.token × (q.process ≡ some pid)))

remove_own :
    (faults : LaunchFaults) (l : ProfileLease) (pid : ℤ) (p : Profile)
    → IsObedient faults
    → IsWord l.token
    → IsPid pid
    → p.lease ≡ some (contents l pid)
    → remove_lease faults.reads faults.removes l p ≡ put_lease none p
unfolding remove_lease unlink_lease
remove_own faults l pid p o w h e =
    rw (remove_lease, e, holds_own l pid w h, o.reads, o.removes) refl

release_lease-Outcome :
    (faults : LaunchFaults) (l : ProfileLease) (pid : ℤ) (p p' q : Profile) (r : Launched)
    → IsObedient faults
    → IsWord l.token
    → IsPid pid
    → SameBut p p'
    → p'.lease ≡ some (contents l pid)
    → KeptBy l p' q r
    → let x = release_lease faults l (q, r) in Outcome p x.0 x.1
unfolding release_lease put_lease
release_lease-Outcome faults l pid p p' q (refused e stuck) o w h s m (a, (b, c)) =
    rw (remove_own faults l pid q o w h (b ∙ m))
      (record { preparation = a ∙ s.preparation; process = c; lease = inl refl })
release_lease-Outcome faults l pid p p' q (launched r n) o w h s m (a, (b, (c, d))) =
    (a ∙ s.preparation, (b, (subst IsWord (sym c) w, d)))

-- What `acquireProfileLease` leaves for its result.
abbrev IsAcquired : ℤ → Profile → Profile → Option ProfileLease → Type 0
IsAcquired pid p q none = (q.lease ≡ none) ⊎ (q.lease ≡ p.lease)
IsAcquired pid p q (some l) = IsWord l.token × (q.lease ≡ some (contents l pid))

LeaseAfter-IsAcquired :
    (l : ProfileLease) (pid : ℤ) (p q : Profile) (r : Option ProfileLease)
    → IsWord l.token
    → LeaseAfter l pid p q r
    → IsAcquired pid p q r
LeaseAfter-IsAcquired l pid p q none w h = h
LeaseAfter-IsAcquired l pid p q (some r) w (h, e) =
    (subst (λ x. IsWord x.token) (sym e) w, subst (λ x. q.lease ≡ some (contents x pid)) (sym e) h)

acquire_lease-IsAcquired :
    (random : Option (List ℕ)) (a b : Attempt) (pid : ℤ) (p : Profile)
    → IsDrawn random
    → a.removes ≡ true
    → b.removes ≡ true
    → let r = acquire_lease random a b pid p in SameBut p r.0 × IsAcquired pid p r.0 r.1
unfolding acquire_lease new_lease_token
acquire_lease-IsAcquired none a b pid p d f g =
    (record { preparation = refl; process = refl }, inr refl)
acquire_lease-IsAcquired (some []) a b pid p d f g = absurd d
acquire_lease-IsAcquired (some (c ∷ bytes)) a b pid p d f g =
    let l : ProfileLease = record { state = preparing; token = hex_text (c ∷ bytes) } in
    let r = attempt_all (a ∷ b ∷ []) l pid p in
    let (same, after) = acquire_two a b l pid p f g in
    (same, LeaseAfter-IsAcquired l pid p r.0 r.1 (hex_text-IsWord c bytes) after)

Outcome_acquired :
    (faults : LaunchFaults) (c : FirefoxConfig) (certutil firefox : Text) (p q : Profile)
    (r : Option ProfileLease)
    → IsObedient faults
    → p.process ≡ none
    → SameBut p q
    → IsAcquired faults.self p q r
    → let x = with_acquired faults c certutil firefox q r in Outcome p x.0 x.1
unfolding with_acquired
Outcome_acquired faults c certutil firefox p q none o n s h = record {
  preparation = s.preparation;
  process = s.process ∙ n;
  lease = h;
}
Outcome_acquired faults c certutil firefox p q (some l) o n s (w, h) =
    let r = with_lease faults c certutil firefox l q in
    release_lease-Outcome faults l faults.self p q r.0 r.1 o w o.self s h
      (with_lease-KeptBy faults c certutil firefox l q o.update o.kill (s.process ∙ n))

pub IsLeft-self : (p : Profile) → p.process ≡ none → IsLeft p p
IsLeft-self p n = record { preparation = refl; process = n; lease = inr refl }

with_preparation-Outcome :
    (faults : LaunchFaults) (c : FirefoxConfig) (certutil firefox : Text) (p : Profile)
    → IsObedient faults
    → p.process ≡ none
    → let r = with_preparation faults c certutil firefox p in Outcome p r.0 r.1
unfolding with_preparation
with_preparation-Outcome faults c certutil firefox p o n = elim (Option-cases faults.locked) [
  | inl e ↦ rw (with_preparation, e) (IsLeft-self p n)
  | inr (true, e) ↦ rw (with_preparation, e) (IsLeft-self p n)
  | inr (false, e) ↦
      let a = acquire_lease faults.random faults.first faults.second faults.self p in
      let (same, after) =
        acquire_lease-IsAcquired faults.random faults.first faults.second faults.self p o.drawn
          o.first o.second in
      rw (with_preparation, e) (Outcome_acquired faults c certutil firefox p a.0 a.1 o n same after)
]

-- The deferred removal of the preparation lock.
Outcome_unlocked :
    (removes : Bool) (p p' q : Profile) (r : Launched)
    → removes ≡ true
    → p.preparation ≡ false
    → p'.lease ≡ p.lease
    → Outcome p' q r
    → Outcome p (remove_preparation removes q) r
unfolding remove_preparation
Outcome_unlocked removes p p' q (refused e stuck) t f l h =
    ground (arith, t, f, l, h.lease, h.process)
Outcome_unlocked removes p p' q (launched r pid) t f l (a, b) = (ground (arith, t, f), b)

-- The profile behind a preparation lock that was taken.
record IsTaken (p q : Profile) : Type 0 where
  free : p.preparation ≡ false
  lease : q.lease ≡ p.lease
  process : q.process ≡ p.process

acquire_preparation-IsTaken :
    (mkdir : Bool) (p q : Profile) → acquire_preparation mkdir p ≡ some q → IsTaken p q
unfolding acquire_preparation
acquire_preparation-IsTaken mkdir p q e = record {
  free = ground (arith, e);
  lease = ground (arith, e);
  process = ground (arith, e);
}

prepare_profile-Outcome :
    (faults : LaunchFaults) (c : FirefoxConfig) (certutil firefox : Text) (p : Profile)
    → IsObedient faults
    → p.process ≡ none
    → let r = prepare_profile faults c certutil firefox p in Outcome p r.0 r.1
unfolding prepare_profile
prepare_profile-Outcome faults c certutil firefox p o n = elim (Bool-cases faults.mkdir_profile) [
  | inr a ↦ rw (prepare_profile, a) (IsLeft-self p n)
  | inl a ↦ elim (Bool-cases faults.chmod_profile) [
    | inr b ↦ rw (prepare_profile, a, b) (IsLeft-self p n)
    | inl b ↦ elim (Option-cases (acquire_preparation faults.mkdir p)) [
      | inl e ↦ rw (prepare_profile, a, b, e) (IsLeft-self p n)
      | inr (q, e) ↦
          let t = acquire_preparation-IsTaken faults.mkdir p q e in
          let r = with_preparation faults c certutil firefox q in
          rw (prepare_profile, a, b, e)
            (Outcome_unlocked faults.removes_preparation p q r.0 r.1 o.removes_preparation t.free
              t.lease (with_preparation-Outcome faults c certutil firefox q o (t.process ∙ n)))
    ]
  ]
]

-- For a system that removes files, writes the lease a second time, stops processes and draws a
-- token, and a profile with no process: a launch leaves the preparation lock as it was. When it is
-- refused, at whatever step, no Firefox runs, and no lease is left but one that was there before. When
-- it succeeds, the lease holds the number of the process that runs and a token of one byte or more
-- with no white space.
pub prepare_and_launch-Outcome :
    (host : Host) (faults : LaunchFaults) (c : FirefoxConfig) (p : Profile)
    → IsObedient faults
    → p.process ≡ none
    → let r = prepare_and_launch host faults c p in Outcome p r.0 r.1
unfolding prepare_and_launch
prepare_and_launch-Outcome host faults c p o n = elim (Option-cases (validate host c)) [
  | inr (e, v) ↦ rw (prepare_and_launch, v) (IsLeft-self p n)
  | inl v ↦ elim (Option-cases (find_certutil host c.nss_certutil)) [
    | inl f ↦ rw (prepare_and_launch, v, f) (IsLeft-self p n)
    | inr (certutil, f) ↦ elim (Option-cases (find_firefox host c.binary)) [
      | inl g ↦ rw (prepare_and_launch, v, f, g) (IsLeft-self p n)
      | inr (firefox, g) ↦
          rw (prepare_and_launch, v, f, g) (prepare_profile-Outcome faults c certutil firefox p o n)
    ]
  ]
]

-- ===== src/Firefox/Launch/Attempts.antt =====
-- The attempts of `acquireProfileLease` of internal/firefox/firefox.go.
use hamsterd.Common.{
  ◌≡◌, refl, ◌⊎◌, inl, inr, true, Option, none, some, List, [], ◌∷◌, Text, arith, Option-cases,
  Bool-cases,
}
use hamsterd.Common.Int.{ℤ}
use hamsterd.Firefox.Lease.{
  ProfileLease, Profile, Attempt, Attempted, acquired, again, failed, attempt_lease, attempt_all,
  contents, put_lease, unlink_lease,
}

-- Same but for the lease.
pub record SameBut (p q : Profile) : Type 0 where
  pub preparation : q.preparation ≡ p.preparation
  pub process : q.process ≡ p.process

attempt_lease-SameBut :
    (a : Attempt) (l : ProfileLease) (pid : ℤ) (p : Profile) → SameBut p (attempt_lease a l pid p).0
unfolding attempt_lease put_lease unlink_lease
attempt_lease-SameBut a l pid p = record { preparation = ground arith; process = ground arith }

Attempted-cases :
    (r : Attempted) → ((l : ProfileLease) × (r ≡ acquired l)) ⊎ ((r ≡ again) ⊎ (r ≡ failed))
Attempted-cases (acquired l) = inl (l, refl)
Attempted-cases again = inr (inl refl)
Attempted-cases failed = inr (inr refl)

-- What two attempts leave for the result.
abbrev pub LeaseAfter : ProfileLease → ℤ → Profile → Profile → Option ProfileLease → Type 0
LeaseAfter l pid p q none = (q.lease ≡ none) ⊎ (q.lease ≡ p.lease)
LeaseAfter l pid p q (some r) = (q.lease ≡ some (contents l pid)) × (r ≡ l)

attempt_new :
    (a : Attempt) (l : ProfileLease) (pid : ℤ) (p : Profile)
    → p.lease ≡ none
    → a.removes ≡ true
    → let r = attempt_lease a l pid p in
      ((r.1 ≡ acquired l) × (r.0.lease ≡ some (contents l pid)))
      ⊎ ((r.1 ≡ failed) × (r.0.lease ≡ none))
unfolding attempt_lease put_lease unlink_lease
attempt_new a l pid p n f = elim (Bool-cases a.opens) [
  | inr e ↦ inr (ground (arith, n, e, f))
  | inl e ↦ elim (Bool-cases a.writes) [
    | inr w ↦ inr (ground (arith, n, e, f, w))
    | inl w ↦ elim (Bool-cases a.closes) [
      | inr c ↦ inr (ground (arith, n, e, f, w, c))
      | inl c ↦ inl (ground (arith, n, e, f, w, c))
    ]
  ]
]

attempt_all_old :
    (a : Attempt) (attempts : List Attempt) (l : ProfileLease) (pid : ℤ) (p : Profile) (old : Text)
    → p.lease ≡ some old
    → a.removes ≡ true
    → attempt_all (a ∷ attempts) l pid p ≡ attempt_all attempts l pid (put_lease none p)
unfolding attempt_all attempt_lease
attempt_all_old a attempts l pid p old o f = ground (arith, o, f)

attempt_all_new :
    (a : Attempt) (attempts : List Attempt) (l : ProfileLease) (pid : ℤ) (p : Profile)
    → p.lease ≡ none
    → a.removes ≡ true
    → let r = attempt_all (a ∷ attempts) l pid p in SameBut p r.0 × LeaseAfter l pid p r.0 r.1
unfolding attempt_all
attempt_all_new a attempts l pid p n f = elim (attempt_new a l pid p n f) [
  | inl (e, h) ↦ rw (attempt_all, e) (attempt_lease-SameBut a l pid p, (h, refl))
  | inr (e, h) ↦ rw (attempt_all, e) (attempt_lease-SameBut a l pid p, inl h)
]

LeaseAfter-put :
    (l : ProfileLease) (pid : ℤ) (p q : Profile) (r : Option ProfileLease)
    → LeaseAfter l pid (put_lease none p) q r
    → LeaseAfter l pid p q r
unfolding put_lease
LeaseAfter-put l pid p q none (inl h) = inl h
LeaseAfter-put l pid p q none (inr h) = inl h
LeaseAfter-put l pid p q (some r) h = h

SameBut-put : (p q : Profile) → SameBut (put_lease none p) q → SameBut p q
unfolding put_lease
SameBut-put p q s = record { preparation = s.preparation; process = s.process }

pub acquire_two :
    (a b : Attempt) (l : ProfileLease) (pid : ℤ) (p : Profile)
    → a.removes ≡ true
    → b.removes ≡ true
    → let r = attempt_all (a ∷ b ∷ []) l pid p in SameBut p r.0 × LeaseAfter l pid p r.0 r.1
unfolding put_lease
acquire_two a b l pid p f g = elim (Option-cases p.lease) [
  | inl n ↦ attempt_all_new a (b ∷ []) l pid p n f
  | inr (old, o) ↦
      let r = attempt_all (b ∷ []) l pid (put_lease none p) in
      let (same, after) = attempt_all_new b [] l pid (put_lease none p) refl g in
      rw (attempt_all_old a (b ∷ []) l pid p old o f)
        (SameBut-put p r.0 same, LeaseAfter-put l pid p r.0 r.1 after)
]

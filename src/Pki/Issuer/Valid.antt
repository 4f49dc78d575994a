-- ===== src/Pki/Issuer/Valid.antt =====
-- Which certificates the issuer of internal/pki/leaf.go serves.
use hamsterd.Common.{ℕ, ◌≡◌, ◌⊎◌, subst, true, Text, arith, Option-cases, Bool-cases, inl, inr}
use hamsterd.Common.Int.{◌≤ℤ◌, ◌<ℤ◌, ltb_ℤ→lt, ltb_ℤ→le, pos}
use hamsterd.Common.Clock.{Time, add_time, before}
use hamsterd.Common.Dict.{lookup}
use hamsterd.Pki.Leaf.{Crypto, Ca, Certificate, leaf_renewal, fresh}
use hamsterd.Pki.Issuer.{
  Outcome, pending, failed, issued, Issuer, new_issuer, remove_locked, serves, begin_entry,
  use_entry, begin, Reach,
}
use hamsterd.Pki.Issuer.Invariant.{Reach-IsIndexed}
use hamsterd.Pki.Issuer.Signed.{IsLeafFor, All-get_elem?, Reach-IsSigned}

-- What a call returns from the cache at `now`.
pub record IsServed (x : Crypto) (ca : Ca) (now : Time) (hostname : Text) (c : Certificate)
    : Type 0 where
  pub end : Time
  pub leaf : IsLeafFor x ca hostname c end
  pub alive : now <ℤ end
  pub renewed : (add_time now (pos leaf_renewal) <ℤ end) ⊎ (ca.not_after ≤ℤ end)

fresh-alive : (ca : Ca) (now end : Time) → fresh ca now end ≡ true → now <ℤ end
unfolding fresh
fresh-alive ca now end h = ground arith

fresh-renewed :
    (ca : Ca) (now end : Time)
    → fresh ca now end ≡ true
    → (add_time now (pos leaf_renewal) <ℤ end) ⊎ (ca.not_after ≤ℤ end)
unfolding fresh
fresh-renewed ca now end h = elim (Bool-cases (before (add_time now (pos leaf_renewal)) end)) [
  | inl soon ↦ inl (ltb_ℤ→lt (add_time now (pos leaf_renewal)) end soon)
  | inr late ↦ inr (ltb_ℤ→le end ca.not_after (ground (arith, late, h)))
]

begin_entry-signs :
    (hostname : Text) (i j : Issuer) (c : Certificate) → begin_entry hostname i ≡ (j, serves c) → ⊥
unfolding begin_entry
begin_entry-signs hostname i j c run = ground (arith, run)

use_entry-serves :
    (ca : Ca) (now : Time) (hostname : Text) (id : ℕ) (outcome : Outcome) (i j : Issuer)
    (c : Certificate)
    → use_entry ca now hostname id outcome i ≡ (j, serves c)
    → (end : Time) × (outcome ≡ issued c end) × (fresh ca now end ≡ true)
unfolding use_entry
use_entry-serves ca now hostname id pending i j c run = absurd (ground (arith, run))
use_entry-serves ca now hostname id failed i j c run =
    absurd (begin_entry-signs hostname (remove_locked hostname i) j c run)
use_entry-serves ca now hostname id (issued certificate end) i j c run =
    elim (Bool-cases (fresh ca now end)) [
      | inl f ↦ (end, ground (arith, f, run), f)
      | inr f ↦
          absurd
            (begin_entry-signs hostname (remove_locked hostname i) j c (ground (arith, f, run)))
    ]

-- A certificate that a call of `Certificate` takes from the cache, in any state that calls reach from
-- a new issuer, was signed for exactly this hostname, as an address or as a name, is followed by the
-- authority in its chain, ends no later than the authority and after now, and is valid for more than
-- the time of renewal or else for as long as the authority.
pub begin-IsServed :
    (x : Crypto) (ca : Ca) (max_entries : ℕ) (now : Time) (hostname : Text) (i j : Issuer)
    (c : Certificate)
    → Reach x ca (new_issuer max_entries) i
    → begin ca now hostname i ≡ (j, serves c)
    → IsServed x ca now hostname c
unfolding begin
begin-IsServed x ca max_entries now hostname i j c reached run =
    elim (Option-cases (lookup hostname i.entries)) [
      | inl e ↦ absurd (begin_entry-signs hostname i j c (ground (arith, e, run)))
      | inr (id, e) ↦
          let v = Reach-IsIndexed x ca max_entries reached in
          let (entry, found, named) = v.refers hostname id e in
          let (end, outcome, f) =
            use_entry-serves ca now hostname id entry.outcome i j c
              (ground (arith, e, found, run)) in
          let signed =
            All-get_elem? x ca i.heap id entry (Reach-IsSigned x ca max_entries reached) found in
          record {
            end = end;
            leaf = subst (λ h. IsLeafFor x ca h c end) named (signed c end outcome);
            alive = fresh-alive ca now end f;
            renewed = fresh-renewed ca now end f;
          }
    ]

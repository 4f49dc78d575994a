-- ===== src/Firefox/Lease/Exit.antt =====
-- What `removeExitedLease` of internal/firefox/firefox.go removes.
use hamsterd.Common.{
  ◌≡◌, refl, ◌∙◌, ◌≢◌, true, false, some, none, text_eq, text_eq_refl, text_eq_ne, arith,
}
use hamsterd.Common.Int.{ℤ}
use hamsterd.Common.Fields.{IsWord}
use hamsterd.Firefox.Lease.{
  ProfileLease, Profile, contents, holds_token, remove_lease, put_lease, unlink_lease,
  acquire_preparation, remove_preparation, ExitFaults, remove_exited_lease,
}
use hamsterd.Firefox.Lease.Words.{IsPid, parse_lease-contents}

pub holds_token_iff :
    (l m : ProfileLease) (pid : ℤ)
    → IsWord m.token
    → IsPid pid
    → holds_token l (some (contents m pid)) ≡ text_eq m.token l.token
unfolding holds_token
holds_token_iff l m pid w (n, low, high, e) =
    rw e (rw (holds_token, parse_lease-contents m n w low high) refl)

-- The removal of a lease behind the exit of Firefox, whatever the system answers, keeps a lease that
-- another launch has written meanwhile: one with another token, of one byte or more and no white
-- space, and a process number that fits.
pub remove_exited_lease-keeps :
    (faults : ExitFaults) (mine other : ProfileLease) (pid : ℤ) (p : Profile)
    → other.token ≢ mine.token
    → IsWord other.token
    → IsPid pid
    → p.lease ≡ some (contents other pid)
    → (remove_exited_lease faults mine p).lease ≡ p.lease
unfolding remove_exited_lease acquire_preparation remove_preparation remove_lease
remove_exited_lease-keeps faults mine other pid p n w h e =
    let kept : holds_token mine (some (contents other pid)) ≡ false =
      holds_token_iff mine other pid w h ∙ text_eq_ne other.token mine.token n in
    ground (arith, e, kept)

-- The lease is removed, and so is the preparation lock.
pub remove_exited_lease-removes :
    (faults : ExitFaults) (lease : ProfileLease) (pid : ℤ) (p : Profile)
    → faults.mkdir ≡ true
    → faults.reads ≡ true
    → faults.removes ≡ true
    → faults.removes_preparation ≡ true
    → p.preparation ≡ false
    → IsWord lease.token
    → IsPid pid
    → p.lease ≡ some (contents lease pid)
    → ((remove_exited_lease faults lease p).lease ≡ none)
      × ((remove_exited_lease faults lease p).preparation ≡ false)
unfolding remove_exited_lease acquire_preparation remove_preparation remove_lease unlink_lease
    put_lease
remove_exited_lease-removes faults lease pid p a b c d f w h e =
    let held : holds_token lease (some (contents lease pid)) ≡ true =
      holds_token_iff lease lease pid w h ∙ text_eq_refl lease.token in
    ground (arith, a, b, c, d, e, f, held)

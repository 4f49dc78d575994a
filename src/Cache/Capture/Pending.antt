-- ===== src/Cache/Capture/Pending.antt =====
-- The byte counter `pending` of internal/cache/cache.go and the bytes of one download.
use hamsterd.Common.{
  ◌+◌, ◌-◌, ◌≤◌, ◌≡◌, refl, Bool, true, Text, not, ◌&&◌, ◌||◌, ltb, if_elim, length, arith,
  if_cases, ltb→le, ◌∙◌,
}
use hamsterd.Common.Clock.{Time}
use hamsterd.Cache.Disk.{Removes, temporary_file}
use hamsterd.Cache.Metadata.{Metadata, Codec}
use hamsterd.Cache.Store.{Store}
use hamsterd.Cache.Store.Keeps.{IsBounded, IsBounded-rest}
use hamsterd.Cache.Commit.{CommitFaults, commit}
use hamsterd.Cache.Commit.Invariant.{commit-Keeps, remove_path-Keeps}
use hamsterd.Cache.Capture.{CapturingBody, disable, ReadFaults, store_chunk, finish, read, close}

-- A download that is over holds no bytes, and none holds more than one object may have.
pub record IsSound (b : CapturingBody) (s : Store) : Type 0 where
  pub over : (b.disabled || b.committed) ≡ true → b.written ≡ 0
  pub small : b.written ≤ s.max_object_bytes

-- From one state of a download and of the store to the next: `pending` moves with `written`.
pub record Moves (b : CapturingBody) (s : Store) (b' : CapturingBody) (s' : Store) : Type 0 where
  pub sound : IsSound b' s'
  pub balance : s'.pending + b.written ≡ s.pending + b'.written
  pub within : s'.pending ≤ s'.max_bytes
  pub max_bytes : s'.max_bytes ≡ s.max_bytes
  pub max_object_bytes : s'.max_object_bytes ≡ s.max_object_bytes
  pub bounded : IsBounded s → IsBounded s'

pub Moves-trans :
    {b c d : CapturingBody} {s t u : Store} → Moves b s c t → Moves c t d u → Moves b s d u
Moves-trans m n = record {
  sound = n.sound;
  balance = omega (arith, m.balance, n.balance);
  within = n.within;
  max_bytes = n.max_bytes ∙ m.max_bytes;
  max_object_bytes = n.max_object_bytes ∙ m.max_object_bytes;
  bounded = λ v. n.bounded (m.bounded v);
}

abbrev Goes : CapturingBody → Store → CapturingBody × Store → Type 0
Goes b s r = Moves b s r.0 r.1

module _ (b : CapturingBody) (s : Store) (sound : IsSound b s) (held : b.written ≤ s.pending)
    (within : s.pending ≤ s.max_bytes) where
  stays : Moves b s b s
  stays = record {
    sound = sound;
    balance = refl;
    within = within;
    max_bytes = refl;
    max_object_bytes = refl;
    bounded = λ v. v;
  }

  pub disable-Moves : (removes : Removes) → Goes b s (disable removes b s)
  unfolding disable
  disable-Moves removes =
      let s' : Store = record s { pending = s.pending - b.written } in
      let k = remove_path-Keeps removes (temporary_file b.temporary) s' in
      if_elim (Goes b s) (b.disabled || b.committed) stays (record {
        sound = record { over = λ e. refl; small = omega arith };
        balance = omega (arith, k.frame.pending);
        within = omega (arith, k.frame.pending, k.frame.max_bytes);
        max_bytes = k.frame.max_bytes;
        max_object_bytes = k.frame.max_object_bytes;
        bounded = λ v.
            k.bounded
              (IsBounded-rest s s.disk s.next_temporary (s.pending - b.written) s.refreshing v);
      })

  pub close-Moves : (removes : Removes) → Goes b s (close removes b s)
  unfolding close
  close-Moves removes = if_elim (Goes b s) (not b.committed) (disable-Moves removes) stays

  pub store_chunk-Moves :
      (faults : ReadFaults) (now : Time) (chunk : Text)
      → Goes b s (store_chunk faults now chunk b s)
  unfolding store_chunk
  store_chunk-Moves faults now chunk =
      let dropped = disable-Moves faults.commit.removes in
      let n = length chunk in
      if_cases (Goes b s) (not (ltb 0 n && not b.disabled)) (λ _. stays)
        λ active.
          if_cases (Goes b s) (ltb s.max_object_bytes (b.written + n)) (λ _. dropped)
            λ small.
              if_cases (Goes b s) (ltb s.max_bytes (s.pending + n)) (λ _. dropped)
                λ fits.
                  if_cases (Goes b s) (not (faults.write && not b.committed)) (λ _. dropped)
                    λ wrote. record {
                      sound = record { over = ground arith; small = ltb→le _ _ small };
                      balance = omega arith;
                      within = ltb→le _ _ fits;
                      max_bytes = refl;
                      max_object_bytes = refl;
                      bounded = IsBounded-rest s _ s.next_temporary (s.pending + n) s.refreshing;
                    }

  pub finish-Moves :
      (codec : Codec) (faults : ReadFaults) (now : Time) → Goes b s (finish codec faults now b s)
  unfolding finish
  finish-Moves codec faults now =
      let answers : CommitFaults = record faults.commit {
        sync = faults.commit.sync && not b.committed;
      } in
      let meta : Metadata = record b.meta { size = b.written } in
      let k = commit-Keeps codec answers now b.key (temporary_file b.temporary) meta s in
      let s' = (commit codec answers now b.key (temporary_file b.temporary) meta s).0 in
      record {
        sound = record { over = λ e. refl; small = omega arith };
        balance = omega (arith, k.frame.pending);
        within = omega (arith, k.frame.pending, k.frame.max_bytes);
        max_bytes = k.frame.max_bytes;
        max_object_bytes = k.frame.max_object_bytes;
        bounded = λ v.
            IsBounded-rest s' s'.disk s'.next_temporary (s'.pending - b.written) s'.refreshing
              (k.bounded v);
      }

-- One `Read`, whatever the source delivers and the system answers: `pending` changes by as much as
-- `written`, neither exceeds its limit, and a download that is over holds no bytes.
pub read-Moves :
    (codec : Codec) (faults : ReadFaults) (now : Time) (chunk : Text) (eof : Bool)
    (b : CapturingBody) (s : Store)
    → IsSound b s
    → b.written ≤ s.pending
    → s.pending ≤ s.max_bytes
    → Goes b s (read codec faults now chunk eof b s)
unfolding read
read-Moves codec faults now chunk eof b s sound held within =
    let (b', s') = store_chunk faults now chunk b s in
    let m = store_chunk-Moves b s sound held within faults now chunk in
    if_elim (Goes b s) (eof && not b'.disabled)
      (Moves-trans m
        (finish-Moves b' s' m.sound (omega (arith, m.balance)) m.within codec faults now))
      m

-- ===== src/Cache/Commit/Serve.antt =====
-- What `load` of internal/cache/cache.go answers after a `commit`.
use hamsterd.Common.{
  ℕ, zero, suc, ap, subst, List, ◌∷◌, ◌+◌, ◌≤◌, ◌≡◌, ◌≢◌, refl, sym, ◌∙◌, Bool, true, false, some,
  Text, [], not, ltb, if◌then◌else◌, length, take, arith,
}
use hamsterd.Common.Clock.{Time, after}
use hamsterd.Cache.Disk.{temporary_file, File, put_file}
use hamsterd.Cache.Disk.Laws.{put_file_self, put_file_ne}
use hamsterd.Cache.Metadata.{Metadata, Codec, max_metadata_bytes}
use hamsterd.Cache.Store.{Store}
use hamsterd.Cache.Store.Invariant.{IsValid}
use hamsterd.Cache.Commit.{
  CommitFaults, remove_path, install, commit_encoded, commit_closed, commit,
}
use hamsterd.Cache.Commit.Installed.{
  Installed, Installed-remove_path, install-Installed, temporary_ne,
}
use hamsterd.Cache.Load.{
  LoadFaults, effective_stale_until, check_body, check_meta, usable, mark_used, start_refresh,
  is_stale, cached_response, load,
}

-- A test that fails is what a good result has passed.
passes {ℓ} :
    {A : Type ℓ} (failed : Bool) (x : A) (r : A × Bool)
    → (if failed then (x, false) else r).1 ≡ true
    → (if failed then (x, false) else r) ≡ r
passes true x r h = absurd (cc)
passes false x r h = refl

take_all {ℓ} : {A : Type ℓ} (xs : List A) (n : ℕ) → length xs ≤ n → take n xs ≡ xs
take_all [] zero h = refl
take_all [] (suc n) h = refl
take_all (x ∷ xs) zero h = absurd (omega arith)
take_all (x ∷ xs) (suc n) h = ap (λ t. x ∷ t) (take_all xs n (omega arith))

-- The files of an entry can be opened and inspected.
pub record Opens (faults : LoadFaults) : Type 0 where
  pub meta : faults.open_meta ≡ true
  pub body : faults.open_body ≡ true
  pub stat : faults.stat_body ≡ true

module _ (codec : Codec) (m : Metadata) (bytes : Text) (decoded : codec.unmarshal bytes ≡ some m)
    (small : length bytes ≤ max_metadata_bytes) where
  check_meta-Installed :
      (faults : LoadFaults) (now then' : Time) (key : Text) (body : File) (s : Store)
      → Opens faults
      → Installed key (record { content = bytes; mod_time = then' }) body s
      → length body.content ≡ m.size
      → after now (effective_stale_until m) ≡ false
      → check_meta codec faults now key s.disk ≡ usable m body.content
  unfolding check_meta check_body
  check_meta-Installed faults now then' key body s o h size fresh = ground (
    arith,
    h.meta_there,
    h.body_there,
    take_all bytes max_metadata_bytes small,
    o.meta,
    o.body,
    o.stat,
  )

module _ (faults : CommitFaults) (now : Time) (key : Text) (t : ℕ) (body : File) (m : Metadata)
    (s : Store) (bytes : Text) where
  abbrev Done : Store × Bool → Type 0
  Done r = Installed key (record { content = bytes; mod_time = now }) body r.0

  abbrev wrote : Text → Store
  wrote content = record s {
    next_temporary = suc s.next_temporary;
    disk =
        put_file (temporary_file s.next_temporary) (record { content = content; mod_time = now })
          s.disk;
  }

  wrote-IsValid : IsValid s → IsValid (wrote bytes)
  wrote-IsValid v = record {
    distinct = v.distinct;
    fresh = v.fresh;
    counted = v.counted;
    agree = v.agree;
  }

  module _ (v : IsValid s) (apart : t ≢ s.next_temporary)
      (fits : m.size + length bytes ≤ s.max_bytes)
      (from : s.disk (temporary_file t) ≡ some body) where
    commit_encoded-Installed :
        (commit_encoded faults now key (temporary_file t) m bytes s).1 ≡ true
        → Done (commit_encoded faults now key (temporary_file t) m bytes s)
    unfolding commit_encoded
    commit_encoded-Installed done =
        let n = s.next_temporary in
        let last = install faults key (temporary_file t) (temporary_file n) m bytes (wrote bytes) in
        let third = if not faults.close_meta then (wrote bytes, false) else last in
        let second = if not faults.write_meta then (wrote [], false) else third in
        let first = if not faults.chmod_meta then (wrote [], false) else second in
        let e0 =
          passes (not faults.create_meta) s
            (remove_path faults.removes (temporary_file n) first.0, first.1) done in
        let h1 : first.1 ≡ true = ap (λ r. r.1) (sym e0) ∙ done in
        let e1 = passes (not faults.chmod_meta) (wrote []) second h1 in
        let h2 : second.1 ≡ true = ap (λ r. r.1) (sym e1) ∙ h1 in
        let e2 = passes (not faults.write_meta) (wrote []) third h2 in
        let h3 : third.1 ≡ true = ap (λ r. r.1) (sym e2) ∙ h2 in
        let e3 = passes (not faults.close_meta) (wrote bytes) last h3 in
        let h4 : last.1 ≡ true = ap (λ r. r.1) (sym e3) ∙ h3 in
        let there =
          install-Installed key (record { content = bytes; mod_time = now }) body faults m bytes t n
            (wrote bytes) (wrote-IsValid v) apart fits
            (put_file_ne (temporary_file n) (temporary_file t) _ s.disk
                (temporary_ne n t (λ e. apart (sym e)))
              ∙ from)
            (put_file_self (temporary_file n) _ s.disk) h4 in
        subst Done (sym e0) (
          Installed-remove_path key _ body faults.removes n first.0
            (subst Done (sym (e1 ∙ e2 ∙ e3)) there))

    commit_closed-Installed :
        (codec : Codec)
        → codec.marshal m ≡ some bytes
        → (commit_closed codec faults now key (temporary_file t) m s).1 ≡ true
        → Done (commit_closed codec faults now key (temporary_file t) m s)
          × (length bytes ≤ max_metadata_bytes)
    unfolding commit_closed
    commit_closed-Installed codec encoded done =
        let r = commit_encoded faults now key (temporary_file t) m bytes s in
        let run : commit_closed codec faults now key (temporary_file t) m s
            ≡ (if ltb max_metadata_bytes (length bytes) then (s, false) else r) =
          rw (encoded, commit_closed) in
        let h : (if ltb max_metadata_bytes (length bytes) then (s, false) else r).1 ≡ true =
          rw run at done in
        let e = passes (ltb max_metadata_bytes (length bytes)) s r h in
        let h' : r.1 ≡ true = ap (λ r. r.1) (sym e) ∙ h in
        (subst Done (sym (run ∙ e)) (commit_encoded-Installed h'), ground arith)

    commit-Installed :
        (codec : Codec)
        → codec.marshal m ≡ some bytes
        → (commit codec faults now key (temporary_file t) m s).1 ≡ true
        → Done (commit codec faults now key (temporary_file t) m s)
          × (length bytes ≤ max_metadata_bytes)
    unfolding commit
    commit-Installed codec encoded done =
        let last = commit_closed codec faults now key (temporary_file t) m s in
        let second = if not faults.close_body then (s, false) else last in
        let first = if not faults.sync then (s, false) else second in
        let e1 = passes (not faults.sync) s second done in
        let h2 : second.1 ≡ true = ap (λ r. r.1) (sym e1) ∙ done in
        let e2 = passes (not faults.close_body) s last h2 in
        let h3 : last.1 ≡ true = ap (λ r. r.1) (sym e2) ∙ h2 in
        let (there, small) = commit_closed-Installed codec encoded h3 in
        (
          Installed-remove_path key _ body faults.removes t first.0
              (subst Done (sym (e1 ∙ e2)) there),
          small,
        )

    -- If a `commit` of a downloaded body of the size that its metadata says succeeds, and the
    -- entry fits in the cache, then a `load` of the key that can open the files, before the entry's
    -- last time, answers with the metadata's response and exactly the downloaded body, if
    -- encoding/json reads back the metadata that it has written.
    pub load-commit :
        (codec : Codec) (opens : LoadFaults) (later : Time)
        → codec.marshal m ≡ some bytes
        → codec.unmarshal bytes ≡ some m
        → Opens opens
        → length body.content ≡ m.size
        → after later (effective_stale_until m) ≡ false
        → (commit codec faults now key (temporary_file t) m s).1 ≡ true
        → (refresh : Bool) × ((load codec opens later key
              (commit codec faults now key (temporary_file t) m s).0).1
            ≡ some (cached_response later m body.content, refresh))
    unfolding load
    load-commit codec opens later encoded decoded can_open size fresh done =
        let (there, small) = commit-Installed codec encoded done in
        let found =
          check_meta-Installed codec m bytes decoded small opens later now key body _ can_open there
            size fresh in
        (
          (start_refresh (is_stale later m) key
              (mark_used later key (commit codec faults now key (temporary_file t) m s).0)).1,
          rw (found, load),
        )

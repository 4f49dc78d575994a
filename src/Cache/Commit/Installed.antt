-- ===== src/Cache/Commit/Installed.antt =====
-- The files that the installing half of `commit` of internal/cache/cache.go leaves under a key.
use hamsterd.Common.{
  ℕ, ◌+◌, ◌≤◌, ◌≡◌, ◌≢◌, sym, ◌∙◌, true, false, none, some, Text, length, arith, Bool-cases, inl,
  inr,
}
use hamsterd.Common.Dict.{lookup}
use hamsterd.Cache.Disk.{
  meta_file, body_file, temporary_file, path_eq, File, Removes, remove_file, replace,
}
use hamsterd.Cache.Disk.Laws.{remove_file_ne, replace-Moved}
use hamsterd.Cache.Metadata.{Metadata}
use hamsterd.Cache.Store.{Store, remove_locked, remove_files, unindex, push_front}
use hamsterd.Cache.Store.Invariant.{IsValid, remove_locked-IsValid, max_bytes-remove_locked}
use hamsterd.Cache.Store.Survival.{the_meta, the_body, evict_locked-disk, new_entry-stays}
use hamsterd.Cache.Store.Keeps.{lookup-remove_locked}
use hamsterd.Cache.Commit.{CommitFaults, remove_path, index_entry, install_meta, install}

-- The two files of the key.
pub record Installed (key : Text) (meta body : File) (s : Store) : Type 0 where
  pub meta_there : s.disk (meta_file key) ≡ some meta
  pub body_there : s.disk (body_file key) ≡ some body

meta_not_temporary : (k : Text) (n : ℕ) → temporary_file n ≢ meta_file k
meta_not_temporary k n e = absurd (cc)

body_not_temporary : (k : Text) (n : ℕ) → temporary_file n ≢ body_file k
body_not_temporary k n e = absurd (cc)

body_not_meta : (k : Text) → body_file k ≢ meta_file k
body_not_meta k e = absurd (cc)

pub temporary_ne : (n o : ℕ) → n ≢ o → temporary_file n ≢ temporary_file o
temporary_ne n o h e = h (cc)

remove_locked-temporary :
    (removes : Removes) (k : Text) (s : Store) (n : ℕ)
    → (remove_locked removes k s).disk (temporary_file n) ≡ s.disk (temporary_file n)
unfolding remove_locked unindex remove_files remove_file path_eq
remove_locked-temporary removes k s n = ground arith

module _ (key : Text) (meta body : File) where
  pub Installed-remove_path :
      (removes : Removes) (n : ℕ) (s : Store)
      → Installed key meta body s
      → Installed key meta body (remove_path removes (temporary_file n) s)
  unfolding remove_path
  Installed-remove_path removes n s h = record {
    meta_there =
        remove_file_ne removes (temporary_file n) (meta_file key) s.disk (meta_not_temporary key n)
        ∙ h.meta_there;
    body_there =
        remove_file_ne removes (temporary_file n) (body_file key) s.disk (body_not_temporary key n)
        ∙ h.body_there;
  }

  index_entry-Installed :
      (removes : Removes) (size : ℕ) (s : Store)
      → IsValid s
      → lookup key s.entries ≡ none
      → size ≤ s.max_bytes
      → Installed key meta body s
      → Installed key meta body (index_entry removes key size s)
  unfolding index_entry push_front
  index_entry-Installed removes size s v absent fits h =
      let stays = new_entry-stays removes key size s v absent fits in
      record {
        meta_there =
            evict_locked-disk removes key (push_front key size s) the_meta stays ∙ h.meta_there;
        body_there =
            evict_locked-disk removes key (push_front key size s) the_body stays ∙ h.body_there;
      }

  module _ (faults : CommitFaults) (m : Metadata) (bytes : Text) where
    install_meta-Installed :
        (n : ℕ) (s : Store)
        → IsValid s
        → lookup key s.entries ≡ none
        → m.size + length bytes ≤ s.max_bytes
        → s.disk (temporary_file n) ≡ some meta
        → s.disk (body_file key) ≡ some body
        → (install_meta faults key (temporary_file n) m bytes s).1 ≡ true
        → Installed key meta body (install_meta faults key (temporary_file n) m bytes s).0
    unfolding install_meta
    install_meta-Installed n s v absent fits from body_there done =
        let r = replace faults.replace_meta (temporary_file n) (meta_file key) s.disk in
        elim (Bool-cases r.1) [
          | inr failed ↦ let clash : false ≡ true = rw (failed, install_meta) at done in absurd (cc)
          | inl good ↦
              let moved =
                replace-Moved (temporary_file n) (meta_file key) meta (meta_not_temporary key n)
                  faults.replace_meta s.disk from good in
              rw (good, install_meta)
                (index_entry-Installed faults.removes (m.size + length bytes)
                  (record s { disk = r.0 })
                  (record {
                    distinct = v.distinct;
                    fresh = v.fresh;
                    counted = v.counted;
                    agree = v.agree;
                  })
                  absent fits
                  (record {
                    meta_there = moved.arrived;
                    body_there =
                        moved.others (body_file key) (λ e. body_not_temporary key n (sym e))
                          (body_not_meta key)
                        ∙ body_there;
                  }))
        ]

    pub install-Installed :
        (t n : ℕ) (s : Store)
        → IsValid s
        → t ≢ n
        → m.size + length bytes ≤ s.max_bytes
        → s.disk (temporary_file t) ≡ some body
        → s.disk (temporary_file n) ≡ some meta
        → (install faults key (temporary_file t) (temporary_file n) m bytes s).1 ≡ true
        → Installed key meta body
            (install faults key (temporary_file t) (temporary_file n) m bytes s).0
    unfolding install
    install-Installed t n s v apart fits from meta_from done =
        let s' = remove_locked faults.removes key s in
        let v' = remove_locked-IsValid faults.removes key s v in
        let r = replace faults.replace_body (temporary_file t) (body_file key) s'.disk in
        elim (Bool-cases r.1) [
          | inr failed ↦ let clash : false ≡ true = rw (failed, install) at done in absurd (cc)
          | inl good ↦
              let moved =
                replace-Moved (temporary_file t) (body_file key) body (body_not_temporary key t)
                  faults.replace_body s'.disk
                  (remove_locked-temporary faults.removes key s t ∙ from) good in
              rw (good, install)
                (install_meta-Installed n (record s' { disk = r.0 })
                  (record {
                    distinct = v'.distinct;
                    fresh = v'.fresh;
                    counted = v'.counted;
                    agree = v'.agree;
                  })
                  (lookup-remove_locked faults.removes key s)
                  (rw (max_bytes-remove_locked faults.removes key s) fits)
                  (moved.others (temporary_file n) (temporary_ne n t (λ e. apart (sym e)))
                      (body_not_temporary key n)
                    ∙ remove_locked-temporary faults.removes key s n
                    ∙ meta_from)
                  moved.arrived (rw (good, install) at done))
        ]

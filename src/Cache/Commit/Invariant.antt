-- ===== src/Cache/Commit/Invariant.antt =====
-- `commit` keeps the invariant of the store whatever the system answers.
use hamsterd.Common.{◌≡◌, Bool, none, Text, not, ltb, length, if_elim, Option-cases, inl, inr}
use hamsterd.Common.Clock.{Time}
use hamsterd.Common.Dict.{lookup}
use hamsterd.Cache.Disk.{FilePath, Removes, replace, meta_file, body_file}
use hamsterd.Cache.Metadata.{Metadata, Codec, max_metadata_bytes}
use hamsterd.Cache.Store.{Store, remove_locked}
use hamsterd.Cache.Store.Keeps.{
  IsBounded, Keeps, Keeps-refl, Keeps-trans, Keeps-disk, remove_locked-Keeps, lookup-remove_locked,
  evict_locked-push_front-Keeps,
}
use hamsterd.Cache.Commit.{
  CommitFaults, remove_path, index_entry, install_meta, install, commit_encoded, commit_closed,
  commit,
}

abbrev KeepsFirst : Store → Store × Bool → Type 0
KeepsFirst s r = Keeps s r.0

pub remove_path-Keeps :
    (removes : Removes) (p : FilePath) (s : Store) → Keeps s (remove_path removes p s)
unfolding remove_path
remove_path-Keeps removes p s = Keeps-disk s _ s.next_temporary

module _ (faults : CommitFaults) (key : Text) (m : Metadata) (bytes : Text) where
  install_meta-Keeps :
      (p : FilePath) (s : Store)
      → lookup key s.entries ≡ none
      → Keeps s (install_meta faults key p m bytes s).0
  unfolding install_meta index_entry
  install_meta-Keeps p s absent =
      if_elim (KeepsFirst s) (replace faults.replace_meta p (meta_file key) s.disk).1
        (Keeps-trans (Keeps-disk s _ s.next_temporary)
          (evict_locked-push_front-Keeps faults.removes key _ _ absent))
        (Keeps-trans (Keeps-disk s _ s.next_temporary) (remove_path-Keeps faults.removes _ _))

  install-Keeps : (p q : FilePath) (s : Store) → Keeps s (install faults key p q m bytes s).0
  unfolding install
  install-Keeps p q s =
      let s' = remove_locked faults.removes key s in
      let removed = remove_locked-Keeps faults.removes key s in
      if_elim (KeepsFirst s) (replace faults.replace_body p (body_file key) s'.disk).1
        (Keeps-trans removed (
          Keeps-trans (Keeps-disk s' _ s'.next_temporary)
            (install_meta-Keeps q _ (lookup-remove_locked faults.removes key s))))
        (Keeps-trans removed (Keeps-disk s' _ s'.next_temporary))

  commit_encoded-Keeps :
      (now : Time) (p : FilePath) (s : Store)
      → Keeps s (commit_encoded faults now key p m bytes s).0
  unfolding commit_encoded
  commit_encoded-Keeps now p s = if_elim (KeepsFirst s) (not faults.create_meta) (Keeps-refl s) (
      Keeps-trans
        (if_elim (KeepsFirst s) (not faults.chmod_meta) (Keeps-disk s _ _) (
          if_elim (KeepsFirst s) (not faults.write_meta) (Keeps-disk s _ _) (
            if_elim (KeepsFirst s) (not faults.close_meta) (Keeps-disk s _ _)
              (Keeps-trans (Keeps-disk s _ _) (install-Keeps p _ _)))))
        (remove_path-Keeps faults.removes _ _))

module _ (codec : Codec) (faults : CommitFaults) (now : Time) (key : Text) where
  commit_closed-Keeps :
      (p : FilePath) (m : Metadata) (s : Store)
      → Keeps s (commit_closed codec faults now key p m s).0
  unfolding commit_closed
  commit_closed-Keeps p m s = elim (Option-cases (codec.marshal m)) [
    | inl failed ↦ rw (failed, commit_closed) (Keeps-refl s)
    | inr (bytes, encoded) ↦
        rw (encoded, commit_closed)
          (if_elim (KeepsFirst s) (ltb max_metadata_bytes (length bytes)) (Keeps-refl s)
            (commit_encoded-Keeps faults key m bytes now p s))
  ]

  pub commit-Keeps :
      (p : FilePath) (m : Metadata) (s : Store) → Keeps s (commit codec faults now key p m s).0
  unfolding commit
  commit-Keeps p m s =
      Keeps-trans
        (if_elim (KeepsFirst s) (not faults.sync) (Keeps-refl s) (
          if_elim (KeepsFirst s) (not faults.close_body) (Keeps-refl s)
            (commit_closed-Keeps p m s)))
        (remove_path-Keeps faults.removes _ _)

  -- On every path of `commit`, errors included, the index and the map of the store go on agreeing,
  -- `total` is the sum of the sizes and within `maxBytes`, and `pending` stays.
  pub commit-IsBounded :
      (p : FilePath) (m : Metadata) (s : Store)
      → IsBounded s
      → IsBounded (commit codec faults now key p m s).0
        × ((commit codec faults now key p m s).0.pending ≡ s.pending)
  commit-IsBounded p m s b = let k = commit-Keeps p m s in (k.bounded b, k.frame.pending)

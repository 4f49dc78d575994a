-- ===== src/Cache/Commit.antt =====
-- `commit` of internal/cache/cache.go.
pub mod Invariant
pub mod Installed
pub mod Serve
use hamsterd.Common.{
  ℕ, suc, ◌+◌, Bool, true, false, Option, none, some, Text, [], not, ltb, if◌then◌else◌, length,
}
use hamsterd.Common.Clock.{Time}
use hamsterd.Cache.Disk.{
  FilePath, meta_file, body_file, temporary_file, File, Removes, remove_file, put_file,
  ReplaceFaults, replace,
}
use hamsterd.Cache.Metadata.{Metadata, Codec, max_metadata_bytes}
use hamsterd.Cache.Store.{Store, remove_locked, evict_locked, push_front}

-- What the system answers to the calls of `commit`.
pub record CommitFaults : Type 0 where
  pub sync : Bool
  pub close_body : Bool
  pub create_meta : Bool
  pub chmod_meta : Bool
  pub write_meta : Bool
  pub close_meta : Bool
  pub replace_body : ReplaceFaults
  pub replace_meta : ReplaceFaults
  pub removes : Removes

unfoldable pub remove_path : Removes → FilePath → Store → Store
remove_path removes p s = record s { disk = remove_file removes p s.disk }

-- The index entry of a pair of installed files, and the eviction that follows.
unfoldable pub index_entry : Removes → Text → ℕ → Store → Store
index_entry removes key size s = evict_locked removes (push_front key size s)

-- The part under the lock, with the files already replaced as far as that succeeded.
unfoldable pub install_meta :
    CommitFaults → Text → FilePath → Metadata → Text → Store → Store × Bool
install_meta faults key meta_temporary m bytes s =
    let (disk, done) = replace faults.replace_meta meta_temporary (meta_file key) s.disk in
    if done
    then (index_entry faults.removes key (m.size + length bytes) (record s { disk = disk }), true)
    else (remove_path faults.removes (body_file key) (record s { disk = disk }), false)

unfoldable pub install :
    CommitFaults → Text → FilePath → FilePath → Metadata → Text → Store → Store × Bool
install faults key body_temporary meta_temporary m bytes s =
    let s' = remove_locked faults.removes key s in
    let (disk, done) = replace faults.replace_body body_temporary (body_file key) s'.disk in
    if done
    then install_meta faults key meta_temporary m bytes (record s' { disk = disk })
    else (record s' { disk = disk }, false)

-- From the temporary metadata file on.
unfoldable pub commit_encoded :
    CommitFaults → Time → Text → FilePath → Metadata → Text → Store → Store × Bool
commit_encoded faults now key body_temporary m bytes s =
    let meta_temporary = temporary_file s.next_temporary in
    let write = λ (content : Text). record s {
      next_temporary = suc s.next_temporary;
      disk = put_file meta_temporary (record { content = content; mod_time = now }) s.disk;
    } in
    if not faults.create_meta
    then (s, false)
    else let (s', done) =
        if not faults.chmod_meta
        then (write [], false)
        else if not faults.write_meta
        then (write [], false)
        else if not faults.close_meta
        then (write bytes, false)
        else install faults key body_temporary meta_temporary m bytes (write bytes) in
      (remove_path faults.removes meta_temporary s', done)

unfoldable pub commit_closed :
    Codec → CommitFaults → Time → Text → FilePath → Metadata → Store → Store × Bool
commit_closed codec faults now key body_temporary m s = elim (codec.marshal m) [
  | none ↦ (s, false)
  | some bytes ↦
      if ltb max_metadata_bytes (length bytes)
      then (s, false)
      else commit_encoded faults now key body_temporary m bytes s
]

-- The result says whether there was no error.
unfoldable pub commit :
    Codec → CommitFaults → Time → Text → FilePath → Metadata → Store → Store × Bool
commit codec faults now key body_temporary m s =
    let (s', done) =
      if not faults.sync
      then (s, false)
      else if not faults.close_body
      then (s, false)
      else commit_closed codec faults now key body_temporary m s in
    (remove_path faults.removes body_temporary s', done)

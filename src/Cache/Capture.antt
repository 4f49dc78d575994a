-- ===== src/Cache/Capture.antt =====
-- `capture` and `capturingBody` of internal/cache/cache.go: a download that is stored while the
-- client reads it. What the source delivers is an argument of `read`.
pub mod Pending
pub mod Steps
pub mod Safety
use hamsterd.Common.{
  ℕ, suc, ◌+◌, ◌-◌, Bool, true, false, Option, none, some, Text, [], ◌++◌, not, ◌&&◌, ◌||◌, ltb,
  if◌then◌else◌, length,
}
use hamsterd.Common.Clock.{Time}
use hamsterd.Cache.Disk.{Disk, FilePath, temporary_file, File, Removes, remove_file, put_file}
use hamsterd.Cache.Metadata.{Metadata, Codec}
use hamsterd.Cache.Store.{Store}
use hamsterd.Cache.Commit.{CommitFaults, commit, remove_path}

pub record CapturingBody : Type 0 where
  -- the number of the temporary file
  pub temporary : ℕ
  pub key : Text
  pub meta : Metadata
  pub written : ℕ
  pub disabled : Bool
  pub committed : Bool

-- What the system answers to the calls of `capture`.
pub record CaptureFaults : Type 0 where
  pub create : Bool
  pub chmod : Bool
  pub removes : Removes

-- `none` is an error.
unfoldable pub capture :
    CaptureFaults → Time → Text → Metadata → Store → Store × Option CapturingBody
capture faults now key meta s =
    let n = s.next_temporary in
    let created : Store = record s {
      next_temporary = suc n;
      disk = put_file (temporary_file n) (record { content = []; mod_time = now }) s.disk;
    } in
    let body : CapturingBody = record {
      temporary = n;
      key = key;
      meta = meta;
      written = 0;
      disabled = false;
      committed = false;
    } in
    if not faults.create
    then (s, none)
    else if not faults.chmod
    then (remove_path faults.removes (temporary_file n) created, none)
    else (created, some body)

unfoldable pub disable : Removes → CapturingBody → Store → CapturingBody × Store
disable removes b s = if b.disabled || b.committed then (b, s) else (
  record b { disabled = true; written = 0 },
  remove_path removes (temporary_file b.temporary) (record s { pending = s.pending - b.written }),
)

-- What the system answers to the calls of `Read`. After a commit the temporary file is closed, so
-- that writing and syncing it fail.
pub record ReadFaults : Type 0 where
  pub write : Bool
  pub commit : CommitFaults

abbrev content_of : Option File → Text
content_of none = []
content_of (some f) = f.content

unfoldable pub append_file : Time → FilePath → Text → Disk → Disk
append_file now p chunk disk =
    put_file p (record { content = content_of (disk p) ++ chunk; mod_time = now }) disk

-- The first half of `Read`: the `n` bytes that the source has delivered.
unfoldable pub store_chunk :
    ReadFaults → Time → Text → CapturingBody → Store → CapturingBody × Store
store_chunk faults now chunk b s =
    let n = length chunk in
    if not (ltb 0 n && not b.disabled)
    then (b, s)
    else if ltb s.max_object_bytes (b.written + n)
    then disable faults.commit.removes b s
    else if ltb s.max_bytes (s.pending + n)
    then disable faults.commit.removes b s
    else if not (faults.write && not b.committed)
    then disable faults.commit.removes b s
    else (
      record b { written = b.written + n },
      record s {
        pending = s.pending + n;
        disk = append_file now (temporary_file b.temporary) chunk s.disk;
      },
    )

-- The commit at the end of the source.
unfoldable pub finish : Codec → ReadFaults → Time → CapturingBody → Store → CapturingBody × Store
finish codec faults now b s =
    let answers : CommitFaults = record faults.commit {
      sync = faults.commit.sync && not b.committed;
    } in
    let meta : Metadata = record b.meta { size = b.written } in
    let (s', done) = commit codec answers now b.key (temporary_file b.temporary) meta s in
    (
      record b {
        meta = meta;
        written = 0;
        committed = b.committed || done;
        disabled = b.disabled || not done;
      },
      record s' { pending = s'.pending - b.written },
    )

-- `eof` says that the source has answered with io.EOF.
unfoldable pub read :
    Codec → ReadFaults → Time → Text → Bool → CapturingBody → Store → CapturingBody × Store
read codec faults now chunk eof b s =
    let (b', s') = store_chunk faults now chunk b s in
    if eof && not b'.disabled then finish codec faults now b' s' else (b', s')

unfoldable pub close : Removes → CapturingBody → Store → CapturingBody × Store
close removes b s = if not b.committed then disable removes b s else (b, s)

-- ===== src/Cache/Load.antt =====
-- `load` and `endRefresh` of internal/cache/cache.go.
pub mod Invariant
use hamsterd.Common.{
  ℕ, ◌≡◌, Bool, true, false, Option, none, some, List, [], ◌∷◌, Text, codes, not, ◌&&◌, ◌||◌, ltb,
  ◌==◌, if◌then◌else◌, length, take, is_some,
}
use hamsterd.Common.Int.{ℤ, pos, ◌+ℤ◌, ltb_ℤ, wrap64, quot_ℤ}
use hamsterd.Common.Clock.{Time, is_zero_time, after, sub_time, second}
use hamsterd.Common.Numbers.{format_int}
use hamsterd.Common.Http.{Header, header_set, Response}
use hamsterd.Common.Dict.{lookup, insert, delete}
use hamsterd.Cache.Disk.{File, FilePath, meta_file, body_file, Disk, Removes, change_times}
use hamsterd.Cache.Metadata.{Metadata, Codec, max_metadata_bytes, status_header, response_age}
use hamsterd.Cache.Store.{Store, Element, move_to_front, remove_locked}

-- What the system answers to the calls of `load`.
pub record LoadFaults : Type 0 where
  pub open_meta : Bool
  pub open_body : Bool
  pub stat_body : Bool
  pub removes : Removes

abbrev pub open_file : Bool → FilePath → Disk → Option File
open_file answer p disk = if answer then disk p else none

abbrev pub effective_stale_until : Metadata → Time
effective_stale_until m = if is_zero_time m.stale_until then m.expires_at else m.stale_until

-- The three ways in which the files of a key can be found.
pub data Found : Type 0 where
  -- no metadata file: nothing is removed
  missing : Found
  -- not usable: the entry is removed
  unusable : Found
  usable : Metadata → Text → Found

unfoldable pub check_body : LoadFaults → Text → Metadata → Disk → Found
check_body faults key m disk = elim (open_file faults.open_body (body_file key) disk) [
  | none ↦ unusable
  | some body ↦
      if not faults.stat_body || not (length body.content == m.size)
      then unusable
      else usable m body.content
]

unfoldable pub check_meta : Codec → LoadFaults → Time → Text → Disk → Found
check_meta codec faults now key disk = elim (open_file faults.open_meta (meta_file key) disk) [
  | none ↦ missing
  | some file ↦ elim (codec.unmarshal (take max_metadata_bytes file.content)) [
    | none ↦ unusable
    | some m ↦
        if after now (effective_stale_until m) then unusable else check_body faults key m disk
  ]
]

abbrev age_or_zero : Option ℤ → ℤ
age_or_zero none = pos 0
age_or_zero (some age) = age

-- max(0, originAge + int64(now.Sub(storedAt) / time.Second))
unfoldable pub current_age : Time → Metadata → ℤ
current_age now m =
    let age =
      wrap64 (age_or_zero (response_age m.header) +ℤ quot_ℤ (sub_time now m.stored_at) second) in
    if ltb_ℤ age (pos 0) then pos 0 else age

abbrev pub is_stale : Time → Metadata → Bool
is_stale now m = after now m.expires_at

unfoldable pub cached_response : Time → Metadata → Text → Response
cached_response now m body = record {
  status = m.status;
  status_code = m.status_code;
  proto = m.proto;
  proto_major = m.proto_major;
  proto_minor = m.proto_minor;
  header =
      header_set (codes "Age") (format_int (current_age now m))
        (header_set status_header (if is_stale now m then codes "STALE" else codes "HIT") m.header);
  body = some body;
  content_length = pos m.size;
}

-- The entry becomes the most recent, on disk and in memory.
unfoldable pub mark_used : Time → Text → Store → Store
mark_used now key s = record s {
  disk = change_times now (body_file key) (change_times now (meta_file key) s.disk);
  index = elim (lookup key s.entries) [ none ↦ s.index | some e ↦ move_to_front e s.index ];
}

-- Whether the caller starts a refresh, which is then recorded.
unfoldable pub start_refresh : Bool → Text → Store → Store × Bool
start_refresh stale key s =
    if stale && not (is_some (lookup key s.refreshing))
    then (record s { refreshing = insert key tt s.refreshing }, true)
    else (s, false)

unfoldable pub load : Codec → LoadFaults → Time → Text → Store → Store × Option (Response × Bool)
load codec faults now key s = elim (check_meta codec faults now key s.disk) [
  | missing ↦ (s, none)
  | unusable ↦ (remove_locked faults.removes key s, none)
  | usable m body ↦
      let (s', refresh) = start_refresh (is_stale now m) key (mark_used now key s) in
      (s', some (cached_response now m body, refresh))
]

unfoldable pub end_refresh : Text → Store → Store
end_refresh key s = record s { refreshing = delete key s.refreshing }

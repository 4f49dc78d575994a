-- ===== src/Tests/Downloads.antt =====
-- A run of one download of internal/cache, from `capture` to the end of its source.
use hamsterd.Common.{
  ◌+◌, ◌≤◌, ◌≢◌, ◌≡◌, length, refl, Bool, true, false, Option, none, some, [], ◌∷◌, Text, codes,
  arith,
}
use hamsterd.Common.Int.{pos}
use hamsterd.Common.Strings.{text_eq}
use hamsterd.Common.Dict.{lookup, insert, delete}
use hamsterd.Common.Http.{Response}
use hamsterd.Cache.Disk.{
  temporary_file, File, path_eq, remove_file, put_file, change_times, ReplaceFaults, rename_file,
  replace_again, replace,
}
use hamsterd.Cache.Metadata.{Metadata, Codec}
use hamsterd.Cache.Store.{
  Store, remove_element, has_element, move_to_front, back, remove_files, unindex, remove_locked,
  evict_loop, evict_locked, push_front,
}
use hamsterd.Cache.Store.Index.{sum_sizes, find_key}
use hamsterd.Cache.Store.Keeps.{IsBounded}
use hamsterd.Cache.Commit.{
  CommitFaults, commit, commit_closed, commit_encoded, install, install_meta, index_entry,
  remove_path,
}
use hamsterd.Cache.Commit.Serve.{load-commit}
use hamsterd.Cache.Load.{
  LoadFaults, cached_response, load, check_meta, check_body, mark_used, start_refresh,
}
use hamsterd.Cache.Capture.{
  CapturingBody, CaptureFaults, ReadFaults, capture, read, store_chunk, disable, append_file,
  finish,
}
use hamsterd.Cache.Capture.Steps.{
  System, sum_written, Step, starts, reads, Reach, here, next, IsSafe,
}
use hamsterd.Cache.Capture.Safety.{Reach-IsSafe}
use hamsterd.Tests.Stored.{empty_store, empty-IsValid}

abbrev meta : Metadata
meta = record {
  status = codes "200 OK";
  status_code = 200;
  proto = codes "HTTP/1.1";
  proto_major = 1;
  proto_minor = 1;
  header = [];
  size = 0;
  stored_at = pos 7;
  expires_at = pos 100;
  stale_until = pos 200;
}

abbrev decode_size : Text → Option Metadata
decode_size [] = none
decode_size (n ∷ t) = some (record meta { size = n })

-- A codec whose documents hold the size alone.
abbrev pub codec : Codec
codec = record { marshal = λ m. some (m.size ∷ []); unmarshal = decode_size }

abbrev good_replace : ReplaceFaults
good_replace = record { first_rename = true; remove_old = true; second_rename = true }

abbrev good_commit : CommitFaults
good_commit = record {
  sync = true;
  close_body = true;
  create_meta = true;
  chmod_meta = true;
  write_meta = true;
  close_meta = true;
  replace_body = good_replace;
  replace_meta = good_replace;
  removes = λ _. true;
}

abbrev pub good_load : LoadFaults
good_load = record { open_meta = true; open_body = true; stat_body = true; removes = λ _. true }

abbrev pub good_capture : CaptureFaults
good_capture = record { create = true; chmod = true; removes = λ _. true }

abbrev good_read : ReadFaults
good_read = record { write = true; commit = good_commit }

unfoldable pub program : Unit {0}
unfolding sum_sizes find_key remove_element has_element move_to_front back remove_files unindex
    remove_locked evict_loop evict_locked push_front path_eq remove_file put_file change_times
    rename_file replace_again replace lookup insert delete text_eq commit commit_closed
    commit_encoded install install_meta index_entry remove_path load cached_response check_meta
    check_body mark_used start_refresh capture read store_chunk disable append_file finish
    sum_written
program = tt

empty-IsBounded : IsBounded empty_store
empty-IsBounded = record { valid = empty-IsValid; within = omega arith }

abbrev first_body : CapturingBody
first_body = record {
  temporary = 0;
  key = codes "k";
  meta = meta;
  written = 0;
  disabled = false;
  committed = false;
}

abbrev idle : System
idle = record { store = empty_store; bodies = [] }

abbrev started : System
started = record {
  store = (capture good_capture (pos 7) (codes "k") meta empty_store).0;
  bodies = first_body ∷ [];
}

abbrev delivered : CapturingBody × Store
delivered = read codec good_read (pos 8) (codes "hello") true first_body started.store

abbrev finished : System
finished = record { store = delivered.1; bodies = delivered.0 ∷ [] }

idle-IsSafe : IsSafe idle
unfolding program
idle-IsSafe = record { counted = refl; within = omega arith; sound = tt; bounded = empty-IsBounded }

starts_first : Step codec idle started
unfolding program
starts_first = starts good_capture (pos 7) (codes "k") meta first_body started.store refl refl

reads_all : Step codec started finished
unfolding program
reads_all = reads good_read (pos 8) (codes "hello") true 0 first_body refl refl

run : Reach codec idle finished
run = next (next here starts_first) reads_all

-- The download is committed: one entry of five bytes and one of the metadata.
finished_store :
    (finished.store.total ≡ 6) × (delivered.0.committed ≡ true) × (finished.store.pending ≡ 0)
unfolding program
finished_store = (refl, refl, refl)

Reach-IsSafe_example : IsSafe finished
Reach-IsSafe_example = Reach-IsSafe codec idle-IsSafe run

abbrev pub stored : Store
stored = finished.store

-- After the `Read` of the body, and before that of the end of the file.
abbrev read_store : Store
read_store = (read codec good_read (pos 8) (codes "hello") false first_body started.store).1

read_store-IsBounded : IsBounded read_store
unfolding program
read_store-IsBounded = record {
  valid = record { distinct = tt; fresh = tt; counted = refl; agree = λ k. refl };
  within = omega arith;
}

-- The body of an answer, and whether the caller is to refresh the entry.
abbrev answer_of : Option (Response × Bool) → Option (Option Text × Bool)
answer_of none = none
answer_of (some (response, refresh)) = some (response.body, refresh)

loaded :
    answer_of (load codec good_load (pos 150) (codes "k") stored).1
    ≡ some (some (codes "hello"), true)
unfolding program
loaded = refl

expired : answer_of (load codec good_load (pos 250) (codes "k") stored).1 ≡ none
unfolding program
expired = refl

pub stored-IsBounded : IsBounded stored
stored-IsBounded = (Reach-IsSafe codec idle-IsSafe run).bounded

abbrev hello : File
hello = record { content = codes "hello"; mod_time = pos 8 }

abbrev committed : Store × Bool
committed =
    commit codec good_commit (pos 9) (codes "k") (temporary_file 0) (record meta { size = 5 })
      read_store

hello_there : read_store.disk (temporary_file 0) ≡ some hello
unfolding program
hello_there = refl

abbrev five : Text
five = 5 ∷ []

small_enough : 5 + length five ≤ read_store.max_bytes
unfolding program
small_enough = omega arith

other_temporary : 0 ≢ read_store.next_temporary
unfolding program
other_temporary = omega arith

hello_committed : committed.1 ≡ true
unfolding program
hello_committed = refl

load-commit_example :
    (refresh : Bool) × ((load codec good_load (pos 150) (codes "k") committed.0).1
      ≡ some (cached_response (pos 150) (record meta { size = 5 }) (codes "hello"), refresh))
load-commit_example =
    load-commit good_commit (pos 9) (codes "k") 0 hello (record meta { size = 5 }) read_store five
      read_store-IsBounded.valid other_temporary small_enough hello_there codec good_load (pos 150)
      refl refl (record { meta = refl; body = refl; stat = refl }) refl refl hello_committed

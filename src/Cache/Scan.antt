-- ===== src/Cache/Scan.antt =====
-- `NewTransport` and `scan` of internal/cache/cache.go.
pub mod Refused
pub mod Bounded
use hamsterd.Common.{
  ℕ, ◌+◌, ◌-◌, ◌*◌, Bool, true, false, Option, none, some, List, [], ◌∷◌, Text, codes, text_eq, not,
  ◌&&◌, ◌||◌, ◌==◌, leb, if◌then◌else◌, length, all, take, drop,
}
use hamsterd.Common.Int.{ℤ, pos, pos_part, ltb_ℤ}
use hamsterd.Common.Clock.{Time, Duration, zero_time, after, before, sub_time, second}
use hamsterd.Common.Strings.{has_prefix, has_suffix, is_digit}
use hamsterd.Common.Dict.{Dict, lookup, insert}
use hamsterd.Cache.Disk.{temporary_file, Disk, Removes, remove_file}
use hamsterd.Cache.Store.{Store, remove_locked, evict_locked, push_front}

abbrev pub stale_temporary_age : ℕ
stale_temporary_age = 3600 * second

unfoldable pub is_hex : ℕ → Bool
is_hex c = is_digit c || (leb b'a' c && leb c b'f')

-- The key of a name that `entryName` matches.
unfoldable pub entry_key : Text → Option Text
entry_key name =
    let key = take 64 name in
    let ending = drop 64 name in
    if (length key == 64)
      && (all is_hex key && (text_eq ending (codes ".body") || text_eq ending (codes ".json")))
    then some key
    else none

-- Digits, one at least, and then the ending of a temporary file.
unfoldable pub numbered : Text → Bool
numbered rest =
    let digits = take (length rest - 4) rest in
    has_suffix rest (codes ".tmp") && (not (length digits == 0) && all is_digit digits)

-- Whether `temporaryName` matches.
unfoldable pub is_temporary : Text → Bool
is_temporary name =
    (has_prefix name (codes ".cache-") && numbered (drop 7 name))
    || (has_prefix name (codes ".metadata-") && numbered (drop 10 name))

-- An item of os.ReadDir, with what its `Info` answers: a size and a time, or an error.
pub record Item : Type 0 where
  pub name : Text
  pub regular : Bool
  pub info : Option (ℕ × Time)

-- `scanned`
pub record Scanned : Type 0 where
  pub size : ℕ
  pub mod_time : Time
  pub parts : ℕ

-- What an item is for `scan`.
pub data Kind : Type 0 where
  ignored foreign : Kind
  temporary : Kind
  part_of : Text → Kind

unfoldable pub part_kind : Item → Kind
part_kind item = elim (entry_key item.name) [
  | none ↦ foreign
  | some key ↦ if item.regular then part_of key else foreign
]

unfoldable pub kind : Item → Kind
kind item =
    if text_eq item.name (codes ".DS_Store")
    then ignored
    else if is_temporary item.name
    then temporary
    else part_kind item

abbrev found_or_empty : Option Scanned → Scanned
found_or_empty none = record { size = 0; mod_time = zero_time; parts = 0 }
found_or_empty (some s) = s

-- One more file of a key.
unfoldable pub add_part : ℕ → Time → Scanned → Scanned
add_part size mod_time s = record {
  size = s.size + size;
  mod_time = if after mod_time s.mod_time then mod_time else s.mod_time;
  parts = s.parts + 1;
}

unfoldable pub add_item : Text → Option (ℕ × Time) → Dict Scanned → Dict Scanned
add_item key none found = found
add_item key (some (size, mod_time)) found =
    insert key (add_part size mod_time (found_or_empty (lookup key found))) found

-- `number` gives the number that stands for the name of a temporary file.
module _ (number : Text → ℕ) (removes : Removes) (now : Time) where
  unfoldable pub remove_stale : Item → Disk → Disk
  unfolding sub_time
  remove_stale item disk = elim item.info [
    | none ↦ disk
    | some (size, mod_time) ↦
        if ltb_ℤ (pos stale_temporary_age) (sub_time now mod_time)
        then remove_file removes (temporary_file (number item.name)) disk
        else disk
  ]

  -- The loop over the items; `none` refuses the directory.
  unfoldable pub scan_items : List Item → Dict Scanned → Disk → Disk × Option (Dict Scanned)
  scan_items [] found disk = (disk, some found)
  scan_items (item ∷ items) found disk = elim (kind item) [
    | ignored ↦ scan_items items found disk
    | temporary ↦ scan_items items found (remove_stale item disk)
    | foreign ↦ (disk, none)
    | part_of key ↦ scan_items items (add_item key item.info found) disk
  ]

-- The entries with two files, and the store without the others.
unfoldable pub keep_pairs : Removes → Dict Scanned → Store → Store × Dict Scanned
keep_pairs removes [] s = (s, [])
keep_pairs removes ((key, entry) ∷ found) s = elim (entry.parts == 2) [
  | false ↦ keep_pairs removes found (remove_locked removes key s)
  | true ↦ let (s', kept) = keep_pairs removes found s in (s', (key, entry) ∷ kept)
]

-- sort.Slice by time, the oldest first; entries of the same time may come in any order.
unfoldable pub insert_by_time : Text × Scanned → Dict Scanned → Dict Scanned
insert_by_time x [] = x ∷ []
insert_by_time x (y ∷ ys) =
    if before y.1.mod_time x.1.mod_time then y ∷ insert_by_time x ys else x ∷ y ∷ ys

unfoldable pub sort_by_time : Dict Scanned → Dict Scanned
sort_by_time [] = []
sort_by_time (x ∷ xs) = insert_by_time x (sort_by_time xs)

unfoldable pub push_all : Dict Scanned → Store → Store
push_all [] s = s
push_all ((key, entry) ∷ found) s = push_all found (push_front key entry.size s)

-- `scan` behind the loop over the items.
unfoldable pub rebuild : Removes → Dict Scanned → Store → Store
rebuild removes found s =
    let (s', kept) = keep_pairs removes found s in
    evict_locked removes (push_all (sort_by_time kept) s')

-- The parts of `Config`.
pub record CacheConfig : Type 0 where
  pub directory : Text
  pub max_bytes : ℤ
  pub max_object_bytes : ℤ
  pub default_ttl : Duration

-- What the system answers to `NewTransport`; no items are an error of os.ReadDir.
pub record ScanFaults : Type 0 where
  pub mkdir : Bool
  pub items : Option (List Item)
  pub chmod : Bool
  pub removes : Removes

unfoldable pub valid_config : CacheConfig → Bool
valid_config c =
    not (text_eq c.directory [])
    && (ltb_ℤ (pos 0) c.max_bytes
        && (ltb_ℤ (pos 0) c.max_object_bytes
            && (not (ltb_ℤ c.max_bytes c.max_object_bytes) && ltb_ℤ (pos 0) c.default_ttl)))

unfoldable pub empty_store : CacheConfig → Disk → Store
empty_store c disk = record {
  max_bytes = pos_part c.max_bytes;
  max_object_bytes = pos_part c.max_object_bytes;
  pending = 0;
  refreshing = [];
  index = [];
  entries = [];
  total = 0;
  next_id = 0;
  next_temporary = 0;
  disk = disk;
}

unfoldable pub scanned_store :
    ScanFaults → CacheConfig → Disk × Option (Dict Scanned) → Disk × Option Store
scanned_store faults c (disk, none) = (disk, none)
scanned_store faults c (disk, some found) =
    let s = rebuild faults.removes found (empty_store c disk) in
    (s.disk, if faults.chmod then some s else none)

-- `NewTransport`: the files, and the store; `none` is an error.
unfoldable pub new_transport :
    (Text → ℕ) → ScanFaults → Time → CacheConfig → Disk → Disk × Option Store
new_transport number faults now c disk =
    if not (valid_config c) || not faults.mkdir then (disk, none) else elim faults.items [
      | none ↦ (disk, none)
      | some items ↦ scanned_store faults c (scan_items number faults.removes now items [] disk)
    ]

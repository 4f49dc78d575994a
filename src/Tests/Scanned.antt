-- ===== src/Tests/Scanned.antt =====
-- A scan of internal/cache/cache.go that finds a file of another program.
use hamsterd.Common.{◌≡◌, refl, inl, true, none, some, [], ◌∷◌, codes, text_eq}
use hamsterd.Common.Int.{pos}
use hamsterd.Common.Strings.{has_prefix}
use hamsterd.Cache.Disk.{Disk}
use hamsterd.Cache.Scan.{
  Item, ScanFaults, CacheConfig, kind, part_kind, entry_key, is_temporary, numbered, new_transport,
}
use hamsterd.Cache.Scan.Refused.{SameEntries, new_transport-refuses}

abbrev item : Item
item = record { name = codes "notes.txt"; regular = true; info = some (3, pos 1) }

abbrev faults : ScanFaults
faults = record { mkdir = true; items = some (item ∷ []); chmod = true; removes = λ path. true }

abbrev config : CacheConfig
config = record {
  directory = codes "/cache";
  max_bytes = pos 1000;
  max_object_bytes = pos 100;
  default_ttl = pos 1;
}

abbrev disk : Disk
disk path = none

new_transport-refuses_example :
    ((new_transport (λ name. 0) faults (pos 9) config disk).1 ≡ none)
    × SameEntries disk (new_transport (λ name. 0) faults (pos 9) config disk).0
unfolding kind part_kind entry_key is_temporary numbered text_eq has_prefix
new_transport-refuses_example =
    new_transport-refuses (λ name. 0) faults (pos 9) config disk (item ∷ []) refl
      (inl (refl, refl, inl refl))

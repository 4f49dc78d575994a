-- ===== src/Cache/Scan/Refused.antt =====
-- What the scan of internal/cache/cache.go does to a directory with files of others.
use hamsterd.Common.{
  ℕ, ◌≡◌, ◌⊎◌, inl, inr, refl, ◌∙◌, Option, none, some, List, [], ◌∷◌, Text, Any, Option-cases,
  if_cases, not, ◌||◌, false, text_eq, codes,
}
use hamsterd.Common.Clock.{Time}
use hamsterd.Common.Dict.{Dict}
use hamsterd.Cache.Disk.{meta_file, body_file, temporary_file, Disk, Removes, remove_file, path_eq}
use hamsterd.Cache.Store.{Store}
use hamsterd.Cache.Scan.{
  Item, Scanned, Kind, ignored, foreign, temporary, part_of, kind, part_kind, entry_key,
  is_temporary, remove_stale, scan_items, ScanFaults, CacheConfig, valid_config, scanned_store,
  new_transport,
}

pub Kind-cases :
    (k : Kind)
    → (k ≡ ignored) ⊎ (k ≡ foreign) ⊎ (k ≡ temporary) ⊎ ((key : Text) × (k ≡ part_of key))
Kind-cases ignored = inl refl
Kind-cases foreign = inr (inl refl)
Kind-cases temporary = inr (inr (inl refl))
Kind-cases (part_of key) = inr (inr (inr (key, refl)))

-- The files of entries are the same.
pub record SameEntries (disk disk' : Disk) : Type 0 where
  pub bodies : (key : Text) → disk' (body_file key) ≡ disk (body_file key)
  pub metas : (key : Text) → disk' (meta_file key) ≡ disk (meta_file key)

SameEntries-trans : {a b c : Disk} → SameEntries a b → SameEntries b c → SameEntries a c
SameEntries-trans f g = record {
  bodies = λ key. g.bodies key ∙ f.bodies key;
  metas = λ key. g.metas key ∙ f.metas key;
}

same_entries : (disk : Disk) → SameEntries disk disk
same_entries disk = record { bodies = λ key. refl; metas = λ key. refl }

remove_temporary-SameEntries :
    (removes : Removes) (n : ℕ) (disk : Disk)
    → SameEntries disk (remove_file removes (temporary_file n) disk)
unfolding remove_file path_eq
remove_temporary-SameEntries removes n disk = record { bodies = λ key. refl; metas = λ key. refl }

module _ (number : Text → ℕ) (removes : Removes) (now : Time) where
  remove_stale-SameEntries :
      (item : Item) (disk : Disk) → SameEntries disk (remove_stale number removes now item disk)
  unfolding remove_stale
  remove_stale-SameEntries item disk = elim (Option-cases item.info) [
    | inl bad ↦ rw (bad, remove_stale) (same_entries disk)
    | inr ((size, mod_time), known) ↦
        rw (known, remove_stale)
          (if_cases (SameEntries disk) _
            (λ _. remove_temporary-SameEntries removes (number item.name) disk)
            λ _. same_entries disk)
  ]

  scan_items-SameEntries :
      (items : List Item) (found : Dict Scanned) (disk : Disk)
      → SameEntries disk (scan_items number removes now items found disk).0
  unfolding scan_items
  scan_items-SameEntries [] found disk = same_entries disk
  scan_items-SameEntries (item ∷ items) found disk = elim (Kind-cases (kind item)) [
    | inl e ↦ rw (e, scan_items) (scan_items-SameEntries items found disk)
    | inr (inl e) ↦ rw (e, scan_items) (same_entries disk)
    | inr (inr (inl e)) ↦
        rw (e, scan_items)
          (SameEntries-trans (remove_stale-SameEntries item disk)
            (scan_items-SameEntries items found _))
    | inr (inr (inr (key, e))) ↦ rw (e, scan_items) (scan_items-SameEntries items _ disk)
  ]

  scan_items-refuses :
      (items : List Item) (found : Dict Scanned) (disk : Disk)
      → Any (λ item. kind item ≡ foreign) items
      → (scan_items number removes now items found disk).1 ≡ none
  unfolding scan_items
  scan_items-refuses [] found disk a = absurd a
  scan_items-refuses (item ∷ items) found disk (inl h) = rw (h, scan_items) refl
  scan_items-refuses (item ∷ items) found disk (inr a) = elim (Kind-cases (kind item)) [
    | inl e ↦ rw (e, scan_items) (scan_items-refuses items found disk a)
    | inr (inl e) ↦ rw (e, scan_items) refl
    | inr (inr (inl e)) ↦ rw (e, scan_items) (scan_items-refuses items found _ a)
    | inr (inr (inr (key, e))) ↦ rw (e, scan_items) (scan_items-refuses items _ disk a)
  ]

scanned_store-none :
    (faults : ScanFaults) (c : CacheConfig) (r : Disk × Option (Dict Scanned))
    → r.1 ≡ none
    → scanned_store faults c r ≡ (r.0, none)
unfolding scanned_store
scanned_store-none faults c (disk, none) e = refl
scanned_store-none faults c (disk, some found) e = absurd (cc)

-- Not the name of a temporary file or .DS_Store, and either not the name of a file of an entry or no
-- regular file.
abbrev pub IsForeign : Item → Type 0
IsForeign item =
    (text_eq item.name (codes ".DS_Store") ≡ false)
    × (is_temporary item.name ≡ false)
    × ((entry_key item.name ≡ none) ⊎ (item.regular ≡ false))

kind-IsForeign : (item : Item) → IsForeign item → kind item ≡ foreign
unfolding kind part_kind
kind-IsForeign item (a, b, inl e) = rw (kind, a, b, part_kind, e) refl
kind-IsForeign item (a, b, inr e) = elim (Option-cases (entry_key item.name)) [
  | inl f ↦ rw (kind, a, b, part_kind, f) refl
  | inr (key, f) ↦ rw (kind, a, b, part_kind, f, e) refl
]

Any-foreign : (items : List Item) → Any IsForeign items → Any (λ item. kind item ≡ foreign) items
Any-foreign [] a = a
Any-foreign (item ∷ items) (inl h) = inl (kind-IsForeign item h)
Any-foreign (item ∷ items) (inr a) = inr (Any-foreign items a)

-- Of a directory with an item that is neither a file of an entry, nor a temporary file, nor
-- .DS_Store, `NewTransport` makes no store, whatever the system answers, and every file of an entry
-- stays as it is.
pub new_transport-refuses :
    (number : Text → ℕ) (faults : ScanFaults) (now : Time) (c : CacheConfig) (disk : Disk)
    (items : List Item)
    → faults.items ≡ some items
    → Any IsForeign items
    → ((new_transport number faults now c disk).1 ≡ none)
      × SameEntries disk (new_transport number faults now c disk).0
unfolding new_transport scanned_store
new_transport-refuses number faults now c disk items listed a =
    let r = scan_items number faults.removes now items [] disk in
    let refused =
      scanned_store-none faults c r
        (scan_items-refuses number faults.removes now items [] disk (Any-foreign items a)) in
    rw (listed, new_transport)
      (if_cases (λ (t : Disk × Option Store). (t.1 ≡ none) × SameEntries disk t.0)
        (not (valid_config c) || not faults.mkdir) (λ _. (refl, same_entries disk))
        λ _. rw (refused) (refl, scan_items-SameEntries number faults.removes now items [] disk))

-- ===== src/Cache/Store.antt =====
-- The store of internal/cache/cache.go: the index of committed entries by recency, the map from
-- keys to index elements, the byte counters and the files. An element of the list is a pointer in
-- Go; `id` stands for its address. The directory and the default lifetime never change: the files of
-- the directory are `disk`, and the lifetime is an argument where it is used.
pub mod Index
pub mod Invariant
pub mod Keeps
pub mod Survival
use hamsterd.Common.{
  ℕ, zero, suc, ◌+◌, ◌-◌, Bool, true, false, Option, none, some, List, [], ◌∷◌, Text, ltb, ◌==◌,
  if◌then◌else◌, length, any,
}
use hamsterd.Common.Dict.{Dict, lookup, insert, delete}
use hamsterd.Cache.Disk.{FilePath, meta_file, body_file, Disk, Removes, remove_file}

pub record IndexEntry : Type 0 where
  pub key : Text
  pub size : ℕ

-- An element of the list: its address and its value.
pub record Element : Type 0 where
  pub id : ℕ
  pub value : IndexEntry

pub record Store : Type 0 where
  pub max_bytes : ℕ
  pub max_object_bytes : ℕ
  pub pending : ℕ
  pub refreshing : Dict (Unit {0})
  -- the front is the head
  pub index : List Element
  pub entries : Dict Element
  pub total : ℕ
  pub next_id : ℕ
  -- the number of the next temporary file
  pub next_temporary : ℕ
  pub disk : Disk

-- list.Remove: by address.
unfoldable pub remove_element : ℕ → List Element → List Element
remove_element i [] = []
remove_element i (e ∷ es) = if e.id == i then es else e ∷ remove_element i es

-- Whether the element at the address is in the list.
unfoldable pub has_element : ℕ → List Element → Bool
has_element i es = any (λ e. e.id == i) es

-- list.MoveToFront, which leaves a list alone that the element is not in.
unfoldable pub move_to_front : Element → List Element → List Element
move_to_front e es = if has_element e.id es then e ∷ remove_element e.id es else es

-- list.Back
unfoldable pub back : List Element → Option Element
back [] = none
back (e ∷ []) = some e
back (e ∷ f ∷ es) = back (f ∷ es)

unfoldable pub remove_files : Removes → Text → Disk → Disk
remove_files removes key disk =
    remove_file removes (body_file key) (remove_file removes (meta_file key) disk)

-- The index part of `removeLocked`.
unfoldable pub unindex : Text → Store → Store
unindex key s = elim (lookup key s.entries) [
  | none ↦ s
  | some e ↦ record s {
    total = s.total - e.value.size;
    index = remove_element e.id s.index;
    entries = delete key s.entries;
  }
]

unfoldable pub remove_locked : Removes → Text → Store → Store
remove_locked removes key s = unindex key (record s { disk = remove_files removes key s.disk })

-- The loop of `evictLocked`, with fuel.
unfoldable pub evict_loop : Removes → ℕ → Store → Store
evict_loop removes zero s = s
evict_loop removes (suc fuel) s = elim (ltb s.max_bytes s.total) [
  | false ↦ s
  | true ↦ elim (back s.index) [
    | none ↦ s
    | some oldest ↦ evict_loop removes fuel (remove_locked removes oldest.value.key s)
  ]
]

-- One round for each element is enough.
unfoldable pub evict_locked : Removes → Store → Store
evict_locked removes s = evict_loop removes (length s.index) s

-- s.entries[key] = s.index.PushFront(&indexEntry{key, size}); s.total += size
unfoldable pub push_front : Text → ℕ → Store → Store
push_front key size s =
    let e : Element = record { id = s.next_id; value = record { key = key; size = size } } in
    record s {
      index = e ∷ s.index;
      entries = insert key e s.entries;
      total = s.total + size;
      next_id = suc s.next_id;
    }

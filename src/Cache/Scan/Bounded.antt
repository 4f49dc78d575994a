-- ===== src/Cache/Scan/Bounded.antt =====
-- The store that the scan of internal/cache/cache.go makes.
use hamsterd.Common.{
  ℕ, ◌≡◌, ◌≢◌, inl, inr, refl, sym, subst, Option, none, some, List, [], ◌∷◌, Text, text_eq,
  text_eq_iff, text_eq_ne, All, arith, Option-cases, Bool-cases, if_cases, ◌==◌,
}
use hamsterd.Common.Clock.{Time, before}
use hamsterd.Common.Dict.{Dict, lookup, insert, lookup-insert}
use hamsterd.Cache.Disk.{Disk, Removes}
use hamsterd.Cache.Store.{Store, remove_locked, unindex, push_front}
use hamsterd.Cache.Store.Index.{sum_sizes, find_key}
use hamsterd.Cache.Store.Invariant.{
  IsValid, remove_locked-IsValid, push_front-IsValid, evict_locked-IsValid, total-evict_locked-le,
  max_bytes-evict_locked,
}
use hamsterd.Cache.Store.Keeps.{IsBounded}
use hamsterd.Cache.Scan.Refused.{Kind-cases}
use hamsterd.Cache.Scan.{
  Item, Scanned, kind, add_item, scan_items, keep_pairs, insert_by_time, sort_by_time, push_all,
  rebuild, ScanFaults, CacheConfig, empty_store, scanned_store, new_transport,
}

-- No entry of the key.
abbrev NoKey : Text → Dict Scanned → Type 0
NoKey k = All (λ (x : Text × Scanned). x.0 ≢ k)

abbrev IsSingle : Dict Scanned → Type 0
IsSingle [] = Unit
IsSingle (x ∷ d) = NoKey x.0 d × IsSingle d

insert-NoKey :
    (k j : Text) (v : Scanned) (d : Dict Scanned) → k ≢ j → NoKey j d → NoKey j (insert k v d)
unfolding insert
insert-NoKey k j v [] n h = (n, tt)
insert-NoKey k j v ((i, w) ∷ d) n h = ground (arith, insert-NoKey k j v d, text_eq_iff i k)

insert-IsSingle : (k : Text) (v : Scanned) (d : Dict Scanned) → IsSingle d → IsSingle (insert k v d)
unfolding insert
insert-IsSingle k v [] s = (tt, tt)
insert-IsSingle k v ((i, w) ∷ d) (h, s) = elim (Bool-cases (text_eq i k)) [
  | inl same ↦ rw (same, insert) (subst (λ x. NoKey x d) ((text_eq_iff i k).0 same) h, s)
  | inr other ↦
      rw (other, insert)
        (
          insert-NoKey k i v d (λ e. ground (arith, other, text_eq_iff i k, e)) h,
          insert-IsSingle k v d s,
        )
]

add_item-IsSingle :
    (key : Text) (info : Option (ℕ × Time)) (d : Dict Scanned)
    → IsSingle d
    → IsSingle (add_item key info d)
unfolding add_item
add_item-IsSingle key none d s = s
add_item-IsSingle key (some (size, mod_time)) d s = insert-IsSingle key _ d s

-- Of what the loop has found, if it was not refused.
abbrev FoundSingle : Option (Dict Scanned) → Type 0
FoundSingle none = Unit
FoundSingle (some d) = IsSingle d

scan_items-IsSingle :
    (number : Text → ℕ) (removes : Removes) (now : Time) (items : List Item) (d : Dict Scanned)
    (disk : Disk)
    → IsSingle d
    → FoundSingle (scan_items number removes now items d disk).1
unfolding scan_items
scan_items-IsSingle number removes now [] d disk s = s
scan_items-IsSingle number removes now (item ∷ items) d disk s = elim (Kind-cases (kind item)) [
  | inl e ↦ rw (e, scan_items) (scan_items-IsSingle number removes now items d disk s)
  | inr (inl e) ↦ rw (e, scan_items) tt
  | inr (inr (inl e)) ↦ rw (e, scan_items) (scan_items-IsSingle number removes now items d _ s)
  | inr (inr (inr (key, e))) ↦
      rw (e, scan_items)
        (scan_items-IsSingle number removes now items _ disk (add_item-IsSingle key item.info d s))
]

-- Nothing is indexed yet.
record IsEmpty (s : Store) : Type 0 where
  valid : IsValid s
  empty : s.entries ≡ []

remove_locked-IsEmpty :
    (removes : Removes) (key : Text) (s : Store) → IsEmpty s → IsEmpty (remove_locked removes key s)
unfolding remove_locked unindex lookup
remove_locked-IsEmpty removes key s e = record {
  valid = remove_locked-IsValid removes key s e.valid;
  empty = ground (arith, e.empty);
}

-- What `keep_pairs` leaves.
abbrev Kept : Store × Dict Scanned → Type 0
Kept (s, d) = IsEmpty s × IsSingle d

keep_pairs-NoKey :
    (removes : Removes) (k : Text) (d : Dict Scanned) (s : Store)
    → NoKey k d
    → NoKey k (keep_pairs removes d s).1
unfolding keep_pairs
keep_pairs-NoKey removes k [] s h = tt
keep_pairs-NoKey removes k ((key, entry) ∷ d) s (n, h) = elim (Bool-cases (entry.parts == 2)) [
  | inl pair ↦ rw (pair, keep_pairs) (n, keep_pairs-NoKey removes k d s h)
  | inr other ↦ rw (other, keep_pairs) (keep_pairs-NoKey removes k d _ h)
]

keep_pairs-Kept :
    (removes : Removes) (d : Dict Scanned) (s : Store)
    → IsSingle d
    → IsEmpty s
    → Kept (keep_pairs removes d s)
unfolding keep_pairs
keep_pairs-Kept removes [] s i e = (e, tt)
keep_pairs-Kept removes ((key, entry) ∷ d) s (n, i) e = elim (Bool-cases (entry.parts == 2)) [
  | inl pair ↦
      let (e', i') = keep_pairs-Kept removes d s i e in
      rw (pair, keep_pairs) (e', (keep_pairs-NoKey removes key d s n, i'))
  | inr other ↦
      rw (other, keep_pairs) (keep_pairs-Kept removes d _ i (remove_locked-IsEmpty removes key s e))
]

insert_by_time-NoKey :
    (k : Text) (x : Text × Scanned) (d : Dict Scanned)
    → x.0 ≢ k
    → NoKey k d
    → NoKey k (insert_by_time x d)
unfolding insert_by_time
insert_by_time-NoKey k x [] n h = (n, tt)
insert_by_time-NoKey k x (y ∷ d) n (m, h) =
    if_cases (NoKey k) (before y.1.mod_time x.1.mod_time) (λ _. (m, insert_by_time-NoKey k x d n h))
      λ _. (n, (m, h))

insert_by_time-IsSingle :
    (x : Text × Scanned) (d : Dict Scanned)
    → NoKey x.0 d
    → IsSingle d
    → IsSingle (insert_by_time x d)
unfolding insert_by_time
insert_by_time-IsSingle x [] n i = (tt, tt)
insert_by_time-IsSingle x (y ∷ d) (m, n) (h, i) =
    if_cases IsSingle (before y.1.mod_time x.1.mod_time)
      (λ _. (insert_by_time-NoKey y.0 x d (λ e. m (sym e)) h, insert_by_time-IsSingle x d n i))
      λ _. ((m, n), (h, i))

sort_by_time-NoKey : (k : Text) (d : Dict Scanned) → NoKey k d → NoKey k (sort_by_time d)
unfolding sort_by_time
sort_by_time-NoKey k [] h = tt
sort_by_time-NoKey k (x ∷ d) (n, h) =
    insert_by_time-NoKey k x (sort_by_time d) n (sort_by_time-NoKey k d h)

sort_by_time-IsSingle : (d : Dict Scanned) → IsSingle d → IsSingle (sort_by_time d)
unfolding sort_by_time
sort_by_time-IsSingle [] i = tt
sort_by_time-IsSingle (x ∷ d) (n, i) =
    insert_by_time-IsSingle x (sort_by_time d) (sort_by_time-NoKey x.0 d n)
      (sort_by_time-IsSingle d i)

-- The keys are not in the map yet.
abbrev AreNew : Store → Dict Scanned → Type 0
AreNew s = All (λ (x : Text × Scanned). lookup x.0 s.entries ≡ none)

push_front-AreNew :
    (key : Text) (size : ℕ) (s : Store) (d : Dict Scanned)
    → NoKey key d
    → AreNew s d
    → AreNew (push_front key size s) d
unfolding push_front
push_front-AreNew key size s [] n a = tt
push_front-AreNew key size s (x ∷ d) (m, n) (h, a) =
    (rw (lookup-insert, text_eq_ne key x.0 (λ e. m (sym e))) h, push_front-AreNew key size s d n a)

push_all-IsValid :
    (d : Dict Scanned) (s : Store) → IsSingle d → AreNew s d → IsValid s → IsValid (push_all d s)
unfolding push_all
push_all-IsValid [] s i a v = v
push_all-IsValid ((key, entry) ∷ d) s (n, i) (h, a) v =
    push_all-IsValid d (push_front key entry.size s) i (push_front-AreNew key entry.size s d n a)
      (push_front-IsValid key entry.size s v h)

empty-AreNew : (s : Store) (d : Dict Scanned) → s.entries ≡ [] → AreNew s d
unfolding lookup
empty-AreNew s [] e = tt
empty-AreNew s (x ∷ d) e = (rw (e) refl, empty-AreNew s d e)

rebuild-IsBounded :
    (removes : Removes) (d : Dict Scanned) (s : Store)
    → IsSingle d
    → IsEmpty s
    → IsBounded (rebuild removes d s)
unfolding rebuild
rebuild-IsBounded removes d s i e =
    let (e', i') = keep_pairs-Kept removes d s i e in
    let t = (keep_pairs removes d s).0 in
    let sorted = sort_by_time (keep_pairs removes d s).1 in
    let v =
      push_all-IsValid sorted t (sort_by_time-IsSingle _ i') (empty-AreNew t sorted e'.empty)
        e'.valid in
    record {
      valid = evict_locked-IsValid removes (push_all sorted t) v;
      within = rw (max_bytes-evict_locked) (total-evict_locked-le removes (push_all sorted t) v);
    }

empty_store-IsEmpty : (c : CacheConfig) (disk : Disk) → IsEmpty (empty_store c disk)
unfolding empty_store sum_sizes find_key lookup
empty_store-IsEmpty c disk = record {
  valid = record { distinct = tt; fresh = tt; counted = refl; agree = λ k. refl };
  empty = refl;
}

scanned_store-IsBounded :
    (faults : ScanFaults) (c : CacheConfig) (r : Disk × Option (Dict Scanned)) (s : Store)
    → FoundSingle r.1
    → (scanned_store faults c r).1 ≡ some s
    → IsBounded s
unfolding scanned_store
scanned_store-IsBounded faults c (disk, none) s i run = absurd (cc)
scanned_store-IsBounded faults c (disk, some d) s i run =
    let b =
      rebuild-IsBounded faults.removes d (empty_store c disk) i (empty_store-IsEmpty c disk) in
    let same : rebuild faults.removes d (empty_store c disk) ≡ s = ground (arith, run) in
    subst IsBounded same b

-- The store of a transport that `NewTransport` returns: the map and the list of its index agree, no
-- key is there twice, the total is the sum of the sizes, and it is within `MaxBytes`, whatever files
-- of entries the directory holds.
pub new_transport-IsBounded :
    (number : Text → ℕ) (faults : ScanFaults) (now : Time) (c : CacheConfig) (disk : Disk)
    (s : Store)
    → (new_transport number faults now c disk).1 ≡ some s
    → IsBounded s
unfolding new_transport
new_transport-IsBounded number faults now c disk s run = elim (Option-cases faults.items) [
  | inl f ↦ absurd (ground (arith, f, run))
  | inr (items, f) ↦
      scanned_store-IsBounded faults c (scan_items number faults.removes now items [] disk) s
        (scan_items-IsSingle number faults.removes now items [] disk tt) (ground (arith, f, run))
]

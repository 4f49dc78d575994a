-- ===== src/Cache/Store/Invariant.antt =====
-- The invariant of the store of internal/cache/cache.go, kept by every operation on its index.
use hamsterd.Common.{
  ℕ, zero, suc, ◌≤◌, ◌<◌, ◌≡◌, ◌≢◌, refl, none, some, Text, length, All, arith, Bool-cases,
  Option-cases, inl, inr, sym, ◌∙◌, All-imp, ltb,
}
use hamsterd.Common.Dict.{lookup, lookup-insert, lookup-delete}
use hamsterd.Cache.Disk.{Removes}
use hamsterd.Cache.Store.{
  Element, Store, back, unindex, remove_locked, evict_loop, evict_locked, push_front,
}
use hamsterd.Cache.Store.Index.{
  sum_sizes, find_key, IsDistinct, drop_last, longest_fit, remove_element-All,
  remove_element-IsDistinct, sum_sizes-remove_element, find_key-remove_element, find_key-back,
  back-eq-none, remove_element-back, longest_fit_of_le, longest_fit-drop_last, length-drop_last,
  no_elements, NoKey-of_none, sum_sizes-longest_fit,
}

-- The map and the list hold the same elements, and `total` is the sum of their sizes.
pub record IsValid (s : Store) : Type 0 where
  pub distinct : IsDistinct s.index
  pub fresh : All (λ e. e.id < s.next_id) s.index
  pub counted : s.total ≡ sum_sizes s.index
  pub agree : (k : Text) → lookup k s.entries ≡ find_key k s.index

pub unindex-IsValid : (key : Text) (s : Store) → IsValid s → IsValid (unindex key s)
unfolding unindex
unindex-IsValid key s v = elim (Option-cases (lookup key s.entries)) [
  | inl absent ↦ rw (absent, unindex) v
  | inr (e, present) ↦
      let found : find_key key s.index ≡ some e = sym (v.agree key) ∙ present in
      rw (present, unindex)
        (record {
          distinct = remove_element-IsDistinct e.id s.index v.distinct;
          fresh = remove_element-All (λ x. x.id < s.next_id) e.id s.index v.fresh;
          counted =
              omega (arith, v.counted, sum_sizes-remove_element key s.index e v.distinct found);
          agree = λ k. ground (
            arith,
            v.agree k,
            lookup-delete key k s.entries,
            find_key-remove_element key k s.index e v.distinct found,
          );
        })
]

pub remove_locked-IsValid :
    (removes : Removes) (key : Text) (s : Store) → IsValid s → IsValid (remove_locked removes key s)
unfolding remove_locked
remove_locked-IsValid removes key s v =
    unindex-IsValid key _
      record { distinct = v.distinct; fresh = v.fresh; counted = v.counted; agree = v.agree }

-- The least recent entry goes.
pub index-remove_back :
    (removes : Removes) (s : Store) (e : Element)
    → IsValid s
    → back s.index ≡ some e
    → (remove_locked removes e.value.key s).index ≡ drop_last s.index
unfolding remove_locked unindex
index-remove_back removes s e v h =
    let present : lookup e.value.key s.entries ≡ some e =
      v.agree e.value.key ∙ find_key-back s.index e v.distinct h in
    rw (present, unindex) (remove_element-back s.index e v.distinct h)

pub max_bytes-remove_locked :
    (removes : Removes) (key : Text) (s : Store)
    → (remove_locked removes key s).max_bytes ≡ s.max_bytes
unfolding remove_locked unindex
max_bytes-remove_locked removes key s = ground arith

pub evict_loop-IsValid :
    (removes : Removes) (fuel : ℕ) (s : Store) → IsValid s → IsValid (evict_loop removes fuel s)
unfolding evict_loop
evict_loop-IsValid removes zero s v = v
evict_loop-IsValid removes (suc fuel) s v = elim (Bool-cases (ltb s.max_bytes s.total)) [
  | inr fits ↦ rw (fits, evict_loop) v
  | inl over ↦ elim (Option-cases (back s.index)) [
    | inl empty ↦ rw (over, empty, evict_loop) v
    | inr (e, last) ↦
        rw (over, last, evict_loop)
          (evict_loop-IsValid removes fuel _ (remove_locked-IsValid removes e.value.key s v))
  ]
]

pub evict_loop-longest_fit :
    (removes : Removes) (fuel : ℕ) (s : Store)
    → IsValid s
    → length s.index ≤ fuel
    → (evict_loop removes fuel s).index ≡ longest_fit s.max_bytes s.index
unfolding evict_loop sum_sizes
evict_loop-longest_fit removes zero s v h =
    sym (longest_fit_of_le s.max_bytes s.index (rw (no_elements s.index h) (omega arith)))
evict_loop-longest_fit removes (suc fuel) s v h = elim (Bool-cases (ltb s.max_bytes s.total)) [
  | inr fits ↦
      rw (fits, evict_loop)
        (sym (longest_fit_of_le s.max_bytes s.index (ground (arith, v.counted))))
  | inl over ↦ elim (Option-cases (back s.index)) [
    | inl empty ↦ rw (over, empty, evict_loop) (ground (arith, back-eq-none s.index empty))
    | inr (e, last) ↦
        let dropped = index-remove_back removes s e v last in
        let rest = remove_locked removes e.value.key s in
        let ih =
          evict_loop-longest_fit removes fuel rest (remove_locked-IsValid removes e.value.key s v)
            (rw dropped (length-drop_last s.index fuel h)) in
        rw (over, last, evict_loop)
          (ih
            ∙ (rw (dropped, max_bytes-remove_locked)
                (longest_fit-drop_last s.max_bytes s.index (ground (arith, v.counted)))))
  ]
]

-- `evictLocked` keeps exactly the longest run of most recently used entries that fits in
-- `maxBytes`, so it removes only least recently used entries, and no more than it has to.
pub evict_locked-longest_fit :
    (removes : Removes) (s : Store)
    → IsValid s
    → (evict_locked removes s).index ≡ longest_fit s.max_bytes s.index
unfolding evict_locked
evict_locked-longest_fit removes s v =
    evict_loop-longest_fit removes (length s.index) s v (omega arith)

pub evict_locked-IsValid :
    (removes : Removes) (s : Store) → IsValid s → IsValid (evict_locked removes s)
unfolding evict_locked
evict_locked-IsValid removes s v = evict_loop-IsValid removes (length s.index) s v

max_bytes-evict_loop :
    (removes : Removes) (fuel : ℕ) (s : Store) → (evict_loop removes fuel s).max_bytes ≡ s.max_bytes
unfolding evict_loop
max_bytes-evict_loop removes zero s = refl
max_bytes-evict_loop removes (suc fuel) s = elim (Bool-cases (ltb s.max_bytes s.total)) [
  | inr fits ↦ rw (fits, evict_loop)
  | inl over ↦ elim (Option-cases (back s.index)) [
    | inl empty ↦ rw (over, empty, evict_loop)
    | inr (e, last) ↦
        rw (over, last, evict_loop)
          (max_bytes-evict_loop removes fuel _ ∙ max_bytes-remove_locked removes e.value.key s)
  ]
]

pub max_bytes-evict_locked :
    (removes : Removes) (s : Store) → (evict_locked removes s).max_bytes ≡ s.max_bytes
unfolding evict_locked
max_bytes-evict_locked removes s = max_bytes-evict_loop removes (length s.index) s

-- On a valid store the loop of `evictLocked` ends with a total within `maxBytes`.
pub total-evict_locked-le :
    (removes : Removes) (s : Store) → IsValid s → (evict_locked removes s).total ≤ s.max_bytes
total-evict_locked-le removes s v =
    rw ((evict_locked-IsValid removes s v).counted, evict_locked-longest_fit removes s v)
      (sum_sizes-longest_fit s.max_bytes s.index)

-- A new element under a key that the index does not hold.
pub push_front-IsValid :
    (key : Text) (size : ℕ) (s : Store)
    → IsValid s
    → lookup key s.entries ≡ none
    → IsValid (push_front key size s)
unfolding push_front sum_sizes find_key
push_front-IsValid key size s v absent = record {
  distinct = (
    All-imp (λ e. e.id < s.next_id) (λ e. e.id ≢ s.next_id) s.index (λ e h. omega arith) v.fresh,
    NoKey-of_none key s.index (sym (v.agree key) ∙ absent),
    v.distinct,
  );
  fresh = (
    omega arith,
    All-imp (λ e. e.id < s.next_id) (λ e. e.id < suc s.next_id) s.index (λ e h. omega arith)
        v.fresh,
  );
  counted = omega (arith, v.counted);
  agree = λ k. rw (lookup-insert, v.agree k);
}

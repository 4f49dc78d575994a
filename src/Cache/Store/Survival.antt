-- ===== src/Cache/Store/Survival.antt =====
-- Which entries and files an eviction of internal/cache/cache.go leaves.
use hamsterd.Common.{
  ℕ, zero, suc, ◌≤◌, ◌-◌, ◌≡◌, ◌≢◌, refl, sym, ◌∙◌, none, ◌∷◌, Text, text_eq, text_eq_iff,
  text_eq_refl, if◌then◌else◌, arith, Bool-cases, Option-cases, inl, inr, ltb, length,
}
use hamsterd.Common.Dict.{lookup, lookup-delete}
use hamsterd.Cache.Disk.{FilePath, meta_file, body_file, path_eq, Removes, remove_file}
use hamsterd.Cache.Store.{
  Element, Store, back, unindex, remove_files, remove_locked, evict_loop, evict_locked, push_front,
}
use hamsterd.Cache.Store.Index.{find_key, longest_fit, longest_fit-head}
use hamsterd.Cache.Store.Invariant.{
  IsValid, evict_locked-IsValid, evict_locked-longest_fit, push_front-IsValid,
}

pub lookup-remove_locked_all :
    (removes : Removes) (k j : Text) (s : Store)
    → lookup j (remove_locked removes k s).entries
      ≡ (if text_eq k j then none else lookup j s.entries)
unfolding remove_locked unindex
lookup-remove_locked_all removes k j s =
    ground (arith, lookup-delete k j s.entries, text_eq_iff k j)

-- The two files of a key.
pub data IsFileOf (key : Text) : FilePath → Type 0 where
  the_meta : IsFileOf key (meta_file key)
  the_body : IsFileOf key (body_file key)

pub remove_locked-disk :
    (removes : Removes) (k : Text) (s : Store) {key : Text} {p : FilePath}
    → IsFileOf key p
    → k ≢ key
    → (remove_locked removes k s).disk p ≡ s.disk p
unfolding remove_locked unindex remove_files remove_file path_eq
remove_locked-disk removes k s {key} the_meta h = ground (arith, text_eq_iff k key)
remove_locked-disk removes k s {key} the_body h = ground (arith, text_eq_iff k key)

module _ (removes : Removes) (key : Text) where
  evict_loop-absent :
      (fuel : ℕ) (s : Store)
      → lookup key s.entries ≡ none
      → lookup key (evict_loop removes fuel s).entries ≡ none
  unfolding evict_loop
  evict_loop-absent zero s h = h
  evict_loop-absent (suc fuel) s h = elim (Bool-cases (ltb s.max_bytes s.total)) [
    | inr fits ↦ rw (fits, evict_loop) h
    | inl over ↦ elim (Option-cases (back s.index)) [
      | inl empty ↦ rw (over, empty, evict_loop) h
      | inr (e, last) ↦
          rw (over, last, evict_loop)
            (evict_loop-absent fuel _
              (ground (arith, lookup-remove_locked_all removes e.value.key key s)))
    ]
  ]

  evict_loop-disk :
      (fuel : ℕ) (s : Store) {p : FilePath}
      → IsFileOf key p
      → lookup key (evict_loop removes fuel s).entries ≢ none
      → (evict_loop removes fuel s).disk p ≡ s.disk p
  unfolding evict_loop
  evict_loop-disk zero s f h = refl
  evict_loop-disk (suc fuel) s {p} f h = elim (Bool-cases (ltb s.max_bytes s.total)) [
    | inr fits ↦ rw (fits, evict_loop)
    | inl over ↦ elim (Option-cases (back s.index)) [
      | inl empty ↦ rw (over, empty, evict_loop)
      | inr (e, last) ↦
          let rest = remove_locked removes e.value.key s in
          let h' : lookup key (evict_loop removes fuel rest).entries ≢ none =
            rw (over, last, evict_loop) at h in
          let other : e.value.key ≢ key = λ same. h' (
            evict_loop-absent fuel rest (
              ground (
                arith,
                lookup-remove_locked_all removes e.value.key key s,
                text_eq_iff e.value.key key,
              ))) in
          rw (over, last, evict_loop)
            (evict_loop-disk fuel rest f h' ∙ remove_locked-disk removes e.value.key s f other)
    ]
  ]

  -- An entry that an eviction leaves keeps its files.
  pub evict_locked-disk :
      (s : Store) {p : FilePath}
      → IsFileOf key p
      → lookup key (evict_locked removes s).entries ≢ none
      → (evict_locked removes s).disk p ≡ s.disk p
  unfolding evict_locked
  evict_locked-disk s f h = evict_loop-disk (length s.index) s f h

  -- A new entry that fits is not evicted.
  pub new_entry-stays :
      (size : ℕ) (s : Store)
      → IsValid s
      → lookup key s.entries ≡ none
      → size ≤ s.max_bytes
      → lookup key (evict_locked removes (push_front key size s)).entries ≢ none
  unfolding push_front find_key
  new_entry-stays size s v absent h gone =
      let v' = push_front-IsValid key size s v absent in
      let e : Element = record { id = s.next_id; value = record { key = key; size = size } } in
      let kept : (evict_locked removes (push_front key size s)).index
          ≡ e ∷ longest_fit (s.max_bytes - size) s.index =
        evict_locked-longest_fit removes (push_front key size s) v'
        ∙ longest_fit-head s.max_bytes e s.index h in
      let found =
        sym ((evict_locked-IsValid removes (push_front key size s) v').agree key) ∙ gone in
      let clash : find_key key (e ∷ longest_fit (s.max_bytes - size) s.index) ≡ none =
        rw kept at found in
      ground (arith, clash, text_eq_refl key)

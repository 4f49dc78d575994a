-- ===== src/Cache/Disk/Laws.antt =====
-- What `replace` and the removal of files of internal/cache/cache.go do to the other files.
use hamsterd.Common.{
  ◌≡◌, ◌≢◌, sym, ◌∙◌, Bool, true, false, some, ◌&&◌, arith, not, is_some, Bool-cases, inl, inr,
}
use hamsterd.Cache.Disk.{
  FilePath, path_eq_iff, path_eq_refl, File, Disk, Removes, remove_file, put_file, ReplaceFaults,
  rename_file, replace_again, replace,
}

pub remove_file_ne :
    (allowed : Removes) (p q : FilePath) (disk : Disk)
    → p ≢ q
    → remove_file allowed p disk q ≡ disk q
unfolding remove_file
remove_file_ne allowed p q disk h = ground (arith, path_eq_iff p q)

pub put_file_self : (p : FilePath) (f : File) (disk : Disk) → put_file p f disk p ≡ some f
unfolding put_file
put_file_self p f disk = rw (path_eq_refl p)

pub put_file_ne : (p q : FilePath) (f : File) (disk : Disk) → p ≢ q → put_file p f disk q ≡ disk q
unfolding put_file
put_file_ne p q f disk h = ground (arith, path_eq_iff p q)

-- The destination holds the source's file, and no third file changes.
pub record Moved (source destination : FilePath) (f : File) (before after : Disk) : Type 0 where
  pub arrived : after destination ≡ some f
  pub others : (q : FilePath) → q ≢ source → q ≢ destination → after q ≡ before q

module _ (source destination : FilePath) (f : File) (apart : source ≢ destination) where
  rename_file-Moved :
      (answer : Bool) (disk : Disk)
      → disk source ≡ some f
      → (rename_file answer source destination disk).1 ≡ true
      → Moved source destination f disk (rename_file answer source destination disk).0
  unfolding rename_file
  rename_file-Moved false disk there done = absurd (ground arith)
  rename_file-Moved true disk there done =
      rw (there, rename_file)
        (record {
          arrived = put_file_self destination f (remove_file (λ _. true) source disk);
          others = λ q s d.
              put_file_ne destination q f (remove_file (λ _. true) source disk) (λ e. d (sym e))
              ∙ remove_file_ne (λ _. true) source q disk (λ e. s (sym e));
        })

  replace_again-Moved :
      (faults : ReplaceFaults) (disk : Disk)
      → disk source ≡ some f
      → (replace_again faults source destination disk).1 ≡ true
      → Moved source destination f disk (replace_again faults source destination disk).0
  unfolding replace_again
  replace_again-Moved faults disk there done =
      elim (Bool-cases (is_some (disk destination) && not faults.remove_old)) [
        | inl stuck ↦ let clash : false ≡ true = rw (stuck, replace_again) at done in absurd (cc)
        | inr free ↦
            let cleared = remove_file (λ _. faults.remove_old) destination disk in
            let there' : cleared source ≡ some f =
              remove_file_ne (λ _. faults.remove_old) destination source disk (λ e. apart (sym e))
              ∙ there in
            let m =
              rename_file-Moved faults.second_rename cleared there'
                (rw (free, replace_again) at done) in
            rw (free, replace_again)
              (record {
                arrived = m.arrived;
                others = λ q s d.
                    m.others q s d
                    ∙ remove_file_ne (λ _. faults.remove_old) destination q disk (λ e. d (sym e));
              })
      ]

  -- A `replace` that succeeds.
  pub replace-Moved :
      (faults : ReplaceFaults) (disk : Disk)
      → disk source ≡ some f
      → (replace faults source destination disk).1 ≡ true
      → Moved source destination f disk (replace faults source destination disk).0
  unfolding replace
  replace-Moved faults disk there done =
      elim (Bool-cases (rename_file faults.first_rename source destination disk).1) [
        | inl at_once ↦
            rw (at_once, replace) (rename_file-Moved faults.first_rename disk there at_once)
        | inr later ↦
            rw (later, replace)
              (replace_again-Moved faults disk there (rw (later, replace) at done))
      ]

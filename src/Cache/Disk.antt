-- ===== src/Cache/Disk.antt =====
-- The files of the cache directory, as internal/cache/cache.go uses them: the metadata and the body
-- of each key, and temporary files. What the operating system decides is an argument of each
-- operation.
pub mod Laws
use hamsterd.Common.{
  ℕ, ◌≡◌, ◌≢◌, refl, Bool, true, false, Option, none, some, ◌&&◌, ◌||◌, Text, text_eq, text_eq_iff,
  text_eq_refl, ◌==◌, if◌then◌else◌, arith, not, is_some, ◌↔◌,
}
use hamsterd.Common.Clock.{Time}

pub data FilePath : Type 0 where
  meta_file body_file : Text → FilePath
  temporary_file : ℕ → FilePath

unfoldable pub path_eq : FilePath → FilePath → Bool
path_eq (meta_file j) (meta_file k) = text_eq j k
path_eq (body_file j) (body_file k) = text_eq j k
path_eq (temporary_file a) (temporary_file b) = a == b
path_eq _ _ = false

path_eq→eq : (p q : FilePath) → path_eq p q ≡ true → p ≡ q
unfolding path_eq
path_eq→eq (meta_file j) (meta_file k) h = ground (arith, text_eq_iff j k)
path_eq→eq (body_file j) (body_file k) h = ground (arith, text_eq_iff j k)
path_eq→eq (temporary_file a) (temporary_file b) h = ground arith
path_eq→eq _ _ h = ground arith

pub path_eq_refl : (p : FilePath) → path_eq p p ≡ true
unfolding path_eq
path_eq_refl (meta_file k) = text_eq_refl k
path_eq_refl (body_file k) = text_eq_refl k
path_eq_refl (temporary_file a) = ground arith

pub path_eq_iff : (p q : FilePath) → (path_eq p q ≡ true) ↔ (p ≡ q)
path_eq_iff p q = (path_eq→eq p q, λ e. rw e (path_eq_refl q))

pub record File : Type 0 where
  pub content : Text
  pub mod_time : Time

abbrev pub Disk : Type 0
Disk = FilePath → Option File

-- Whether the operating system lets a file be removed.
abbrev pub Removes : Type 0
Removes = FilePath → Bool

-- os.Remove with its error dropped.
unfoldable pub remove_file : Removes → FilePath → Disk → Disk
remove_file allowed p disk q = if path_eq p q && allowed p then none else disk q

unfoldable pub put_file : FilePath → File → Disk → Disk
put_file p f disk q = if path_eq p q then some f else disk q

-- os.Chtimes on a file that exists.
unfoldable pub change_times : Time → FilePath → Disk → Disk
unfolding put_file
change_times now p disk = elim (disk p) [
  | none ↦ disk
  | some f ↦ put_file p (record f { mod_time = now }) disk
]

-- What the system answers to the two renames and to the removal in one call of `replace`.
pub record ReplaceFaults : Type 0 where
  pub first_rename : Bool
  pub remove_old : Bool
  pub second_rename : Bool

-- os.Rename, which keeps the file and its time.
unfoldable pub rename_file : Bool → FilePath → FilePath → Disk → Disk × Bool
unfolding put_file remove_file
rename_file answer source destination disk = elim (disk source) [
  | none ↦ (disk, false)
  | some f ↦
      if answer
      then (put_file destination f (remove_file (λ _. true) source disk), true)
      else (disk, false)
]

-- What `replace` does after a failed rename.
unfoldable pub replace_again : ReplaceFaults → FilePath → FilePath → Disk → Disk × Bool
unfolding rename_file remove_file
replace_again faults source destination disk =
    if is_some (disk destination) && not faults.remove_old
    then (disk, false)
    else rename_file faults.second_rename source destination
        (remove_file (λ _. faults.remove_old) destination disk)

unfoldable pub replace : ReplaceFaults → FilePath → FilePath → Disk → Disk × Bool
unfolding rename_file replace_again
replace faults source destination disk =
    let (renamed, done) = rename_file faults.first_rename source destination disk in
    if done then (renamed, true) else replace_again faults source destination disk

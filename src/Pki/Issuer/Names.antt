-- ===== src/Pki/Issuer/Names.antt =====
-- The list `order` of the issuer of internal/pki/leaf.go: names without repetition.
use hamsterd.Common.{
  suc, ◌≤◌, ◌≡◌, refl, Bool, false, List, [], ◌∷◌, ◌++◌, Text, text_eq, text_eq_iff, text_eq_refl,
  ◌||◌, if◌then◌else◌, length, arith,
}
use hamsterd.Pki.Issuer.{remove_name}

unfoldable pub has_name : Text → List Text → Bool
has_name h [] = false
has_name h (n ∷ ns) = text_eq n h || has_name h ns

abbrev pub IsDistinct : List Text → Type 0
IsDistinct [] = Unit
IsDistinct (n ∷ ns) = (has_name n ns ≡ false) × IsDistinct ns

pub has_name-remove_name :
    (h j : Text) (ns : List Text)
    → IsDistinct ns
    → has_name j (remove_name h ns) ≡ (if text_eq h j then false else has_name j ns)
unfolding has_name remove_name
has_name-remove_name h j [] d = ground arith
has_name-remove_name h j (n ∷ ns) d =
    ground (arith, has_name-remove_name h j ns, text_eq_iff h j, text_eq_iff n h, text_eq_iff n j)

pub remove_name-IsDistinct :
    (h : Text) (ns : List Text) → IsDistinct ns → IsDistinct (remove_name h ns)
unfolding remove_name
remove_name-IsDistinct h [] d = tt
remove_name-IsDistinct h (n ∷ ns) d =
    ground (arith, remove_name-IsDistinct h ns, has_name-remove_name h n ns)

pub length-remove_name : (h : Text) (ns : List Text) → length (remove_name h ns) ≤ length ns
unfolding remove_name
length-remove_name h [] = omega arith
length-remove_name h (n ∷ ns) = ground (arith, length-remove_name h ns)

pub length-remove_first :
    (n : Text) (ns : List Text) → suc (length (remove_name n (n ∷ ns))) ≡ length (n ∷ ns)
unfolding remove_name
length-remove_first n ns = ground (arith, text_eq_refl n)

pub has_name-append :
    (j h : Text) (ns : List Text) → has_name j (ns ++ h ∷ []) ≡ (has_name j ns || text_eq h j)
unfolding has_name
has_name-append j h [] = ground arith
has_name-append j h (n ∷ ns) = ground (arith, has_name-append j h ns)

pub append-IsDistinct :
    (h : Text) (ns : List Text) → has_name h ns ≡ false → IsDistinct ns → IsDistinct (ns ++ h ∷ [])
unfolding has_name
append-IsDistinct h [] e d = (refl, tt)
append-IsDistinct h (n ∷ ns) e d =
    ground (arith, append-IsDistinct h ns, has_name-append n h ns, text_eq_iff n h, text_eq_iff h n)

-- ===== src/Common/Fields.antt =====
-- strings.Fields of Go's library.
use hamsterd.Common.Lists.{All}
use hamsterd.Common.Strings.{Text, is_space}
use Prim.Native.Nat.{ℕ}
use mathlib.Core.Path.{◌≡◌, refl, sym, ap, ◌∙◌}
use mathlib.Core.Bool.{true, false}
use mathlib.Core.List.{List, [], ◌∷◌, ◌++◌, append_assoc, append-nil}

-- The word before the white space, if there is one.
unfoldable pub end_word : Text → List Text → List Text
end_word [] words = words
end_word (c ∷ w) words = (c ∷ w) ∷ words

-- The first argument holds the word read so far.
unfoldable pub fields_from : Text → Text → List Text
fields_from word [] = end_word word []
fields_from word (c ∷ s) = elim (is_space c) [
  | true ↦ end_word word (fields_from [] s)
  | false ↦ fields_from (word ++ (c ∷ [])) s
]

-- strings.Fields
unfoldable pub fields : Text → List Text
fields s = fields_from [] s

abbrev pub IsInWord : ℕ → Type 0
IsInWord c = is_space c ≡ false

-- One byte or more, and no white space.
abbrev pub IsWord : Text → Type 0
IsWord [] = ⊥
IsWord (c ∷ w) = IsInWord c × All IsInWord w

fields_from-word :
    (word w s : Text) → All IsInWord w → fields_from word (w ++ s) ≡ fields_from (word ++ w) s
unfolding fields_from
fields_from-word word [] s h = ap (λ x. fields_from x s) (sym (append-nil word))
fields_from-word word (c ∷ w) s (n, h) =
    rw (n, fields_from)
      (fields_from-word (word ++ (c ∷ [])) w s h
        ∙ ap (λ x. fields_from x s) (append_assoc word (c ∷ []) w))

pub fields-word :
    (w s : Text) (c : ℕ) → IsWord w → is_space c ≡ true → fields (w ++ (c ∷ s)) ≡ w ∷ fields s
unfolding fields fields_from end_word
fields-word [] s c h e = absurd h
fields-word (d ∷ w) s c (n, h) e =
    fields_from-word [] (d ∷ w) (c ∷ s) (n, h) ∙ rw (e, fields_from) refl

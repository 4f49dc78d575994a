-- ===== src/Cache/Store/Index/Front.antt =====
-- What list.MoveToFront, as internal/cache/cache.go calls it, does to the sizes and to the search by
-- key.
use hamsterd.Common.{
  ◌≡◌, true, some, List, [], ◌∷◌, Text, text_eq_iff, text_eq_refl, arith, All, ◌∙◌,
}
use hamsterd.Cache.Store.{Element, remove_element, move_to_front, has_element}
use hamsterd.Cache.Store.Index.{
  sum_sizes, find_key, NoKey, IsDistinct, found-All, remove_element-All, find_key-key,
  NoKey-of_none, find_key-remove_element, remove_element-NoId, remove_element-IsDistinct,
  sum_sizes-remove_element,
}

has_element_of_found :
    (k : Text) (es : List Element) (e : Element)
    → find_key k es ≡ some e
    → has_element e.id es ≡ true
unfolding find_key has_element
has_element_of_found k [] e h = ground arith
has_element_of_found k (x ∷ es) e h = ground (arith, has_element_of_found k es e)

module _ (k : Text) (es : List Element) (e : Element) (found : find_key k es ≡ some e) where
  pub move_to_front_of_found : move_to_front e es ≡ e ∷ remove_element e.id es
  unfolding move_to_front
  move_to_front_of_found = rw (has_element_of_found k es e found)

  pub move_to_front-All {ℓ} : (P : Element → Type ℓ) → All P es → All P (move_to_front e es)
  move_to_front-All P a =
      rw move_to_front_of_found (found-All P k es e a found, remove_element-All P e.id es a)

  module _ (d : IsDistinct es) where
    removed-NoKey : NoKey e.value.key (remove_element e.id es)
    removed-NoKey = NoKey-of_none e.value.key (remove_element e.id es) (
        find_key-remove_element k e.value.key es e d found
        ∙ (rw (find_key-key k es e found, text_eq_refl)))

    pub move_to_front-IsDistinct : IsDistinct (move_to_front e es)
    move_to_front-IsDistinct =
        rw move_to_front_of_found
          (remove_element-NoId k es e d found, removed-NoKey, remove_element-IsDistinct e.id es d)

    pub sum_sizes-move_to_front : sum_sizes (move_to_front e es) ≡ sum_sizes es
    unfolding sum_sizes
    sum_sizes-move_to_front =
        rw move_to_front_of_found (omega (arith, sum_sizes-remove_element k es e d found))

    pub find_key-move_to_front : (j : Text) → find_key j (move_to_front e es) ≡ find_key j es
    unfolding find_key
    find_key-move_to_front j = rw move_to_front_of_found (
        ground (
          arith,
          find_key-remove_element k j es e d found,
          find_key-key k es e found,
          text_eq_iff k j,
          found,
        ))

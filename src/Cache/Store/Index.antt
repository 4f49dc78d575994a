-- ===== src/Cache/Store/Index.antt =====
-- Lists of index elements with distinct addresses and keys: what removal by address does to the
-- sizes and to the search by key.
pub mod Front
use hamsterd.Common.{
  ℕ, zero, suc, ◌+◌, ◌-◌, ◌≤◌, ◌<◌, ◌≡◌, ◌≢◌, refl, ap, Option, none, some, List, [], ◌∷◌, Text,
  text_eq, text_eq_iff, text_eq_refl, if◌then◌else◌, length, leb, All, arith, Bool-cases, inl, inr,
  subst, ltb, drop, true, ◌∙◌,
}
use hamsterd.Cache.Store.{IndexEntry, Element, remove_element, back, move_to_front, has_element}

unfoldable pub sum_sizes : List Element → ℕ
sum_sizes [] = 0
sum_sizes (e ∷ es) = e.value.size + sum_sizes es

unfoldable pub find_key : Text → List Element → Option Element
find_key k [] = none
find_key k (e ∷ es) = if text_eq e.value.key k then some e else find_key k es

abbrev pub NoId : ℕ → List Element → Type 0
NoId i = All (λ e. e.id ≢ i)

abbrev pub NoKey : Text → List Element → Type 0
NoKey k = All (λ e. e.value.key ≢ k)

abbrev pub IsDistinct : List Element → Type 0
IsDistinct [] = Unit
IsDistinct (e ∷ es) = NoId e.id es × NoKey e.value.key es × IsDistinct es

-- The list without its last element.
unfoldable pub drop_last : List Element → List Element
drop_last [] = []
drop_last (e ∷ []) = []
drop_last (e ∷ f ∷ es) = e ∷ drop_last (f ∷ es)

-- The longest prefix whose sizes fit in the budget.
unfoldable pub longest_fit : ℕ → List Element → List Element
longest_fit budget [] = []
longest_fit budget (e ∷ es) =
    let rest = longest_fit (budget - e.value.size) es in
    if leb e.value.size budget then e ∷ rest else []

pub find_key-key :
    (k : Text) (es : List Element) (e : Element) → find_key k es ≡ some e → e.value.key ≡ k
unfolding find_key
find_key-key k [] e h = ground arith
find_key-key k (x ∷ es) e h = ground (arith, text_eq_iff x.value.key k, find_key-key k es e)

pub find_key-NoKey : (k : Text) (es : List Element) → NoKey k es → find_key k es ≡ none
unfolding find_key
find_key-NoKey k [] h = refl
find_key-NoKey k (x ∷ es) h = ground (arith, text_eq_iff x.value.key k, find_key-NoKey k es)

pub found-All {ℓ} :
    (P : Element → Type ℓ) (k : Text) (es : List Element) (e : Element)
    → All P es
    → find_key k es ≡ some e
    → P e
unfolding find_key
found-All P k [] e a h = absurd (ground arith)
found-All P k (x ∷ es) e a h = elim (Bool-cases (text_eq x.value.key k)) [
  | inl same ↦ let q : x ≡ e = ground arith in subst P q a.0
  | inr other ↦ found-All P k es e a.1 (ground arith)
]

pub remove_element-All {ℓ} :
    (P : Element → Type ℓ) (i : ℕ) (es : List Element) → All P es → All P (remove_element i es)
unfolding remove_element
remove_element-All P i [] h = tt
remove_element-All P i (x ∷ es) h = ground (arith, remove_element-All P i es)

pub remove_element-IsDistinct :
    (i : ℕ) (es : List Element) → IsDistinct es → IsDistinct (remove_element i es)
unfolding remove_element
remove_element-IsDistinct i [] h = tt
remove_element-IsDistinct i (x ∷ es) h = ground (
  arith,
  remove_element-IsDistinct i es,
  remove_element-All (λ e. e.id ≢ x.id) i es,
  remove_element-All (λ e. e.value.key ≢ x.value.key) i es,
)

pub sum_sizes-remove_element :
    (k : Text) (es : List Element) (e : Element)
    → IsDistinct es
    → find_key k es ≡ some e
    → sum_sizes (remove_element e.id es) + e.value.size ≡ sum_sizes es
unfolding sum_sizes find_key remove_element
sum_sizes-remove_element k [] e d h = ground arith
sum_sizes-remove_element k (x ∷ es) e d h =
    ground (arith, sum_sizes-remove_element k es e, found-All (λ y. y.id ≢ x.id) k es e)

pub find_key-remove_element :
    (k j : Text) (es : List Element) (e : Element)
    → IsDistinct es
    → find_key k es ≡ some e
    → find_key j (remove_element e.id es) ≡ (if text_eq k j then none else find_key j es)
unfolding find_key remove_element
find_key-remove_element k j [] e d h = ground arith
find_key-remove_element k j (x ∷ es) e d h = ground (
  arith,
  find_key-remove_element k j es e,
  found-All (λ y. y.id ≢ x.id) k es e,
  find_key-NoKey x.value.key es,
  find_key-key k es e,
  text_eq_iff k j,
  text_eq_iff x.value.key k,
  text_eq_iff x.value.key j,
)

pub length-remove_element :
    (k : Text) (es : List Element) (e : Element)
    → IsDistinct es
    → find_key k es ≡ some e
    → length (remove_element e.id es) + 1 ≡ length es
unfolding find_key remove_element
length-remove_element k [] e d h = ground arith
length-remove_element k (x ∷ es) e d h =
    ground (arith, length-remove_element k es e, found-All (λ y. y.id ≢ x.id) k es e)

pub remove_element-NoId :
    (k : Text) (es : List Element) (e : Element)
    → IsDistinct es
    → find_key k es ≡ some e
    → NoId e.id (remove_element e.id es)
unfolding find_key remove_element
remove_element-NoId k [] e d h = tt
remove_element-NoId k (x ∷ es) e d h =
    ground (arith, remove_element-NoId k es e, found-All (λ y. y.id ≢ x.id) k es e)

pub back-All {ℓ} :
    (P : Element → Type ℓ) (es : List Element) (e : Element) → All P es → back es ≡ some e → P e
unfolding back
back-All P [] e a h = absurd (ground arith)
back-All P (x ∷ []) e a h = let q : x ≡ e = ground arith in subst P q a.0
back-All P (x ∷ y ∷ es) e a h = back-All P (y ∷ es) e a.1 h

pub find_key-back :
    (es : List Element) (e : Element)
    → IsDistinct es
    → back es ≡ some e
    → find_key e.value.key es ≡ some e
unfolding find_key back
find_key-back [] e d h = ground arith
find_key-back (x ∷ []) e d h = ground (arith, text_eq_iff x.value.key e.value.key)
find_key-back (x ∷ y ∷ es) e d h = ground (
  arith,
  text_eq_iff x.value.key e.value.key,
  find_key-back (y ∷ es) e,
  back-All (λ z. z.value.key ≢ x.value.key) (y ∷ es) e,
)

pub back-eq-none : (es : List Element) → back es ≡ none → es ≡ []
unfolding back
back-eq-none [] h = refl
back-eq-none (x ∷ []) h = ground arith
back-eq-none (x ∷ y ∷ es) h = absurd (ground (arith, back-eq-none (y ∷ es)))

pub remove_element-back :
    (es : List Element) (e : Element)
    → IsDistinct es
    → back es ≡ some e
    → remove_element e.id es ≡ drop_last es
unfolding remove_element back drop_last
remove_element-back [] e d h = ground arith
remove_element-back (x ∷ []) e d h = ground arith
remove_element-back (x ∷ y ∷ es) e d h =
    ground (arith, remove_element-back (y ∷ es) e, back-All (λ z. z.id ≢ x.id) (y ∷ es) e)

pub longest_fit_of_le :
    (budget : ℕ) (es : List Element) → sum_sizes es ≤ budget → longest_fit budget es ≡ es
unfolding longest_fit sum_sizes
longest_fit_of_le budget [] h = refl
longest_fit_of_le budget (x ∷ es) h = ground (arith, longest_fit_of_le (budget - x.value.size) es)

pub longest_fit-drop_last :
    (budget : ℕ) (es : List Element)
    → budget < sum_sizes es
    → longest_fit budget (drop_last es) ≡ longest_fit budget es
unfolding longest_fit sum_sizes drop_last
longest_fit-drop_last budget [] h = refl
longest_fit-drop_last budget (x ∷ []) h = ground arith
longest_fit-drop_last budget (x ∷ y ∷ es) h =
    ground (arith, longest_fit-drop_last (budget - x.value.size) (y ∷ es))

pub sum_sizes-longest_fit :
    (budget : ℕ) (es : List Element) → sum_sizes (longest_fit budget es) ≤ budget
unfolding longest_fit sum_sizes
sum_sizes-longest_fit budget [] = omega arith
sum_sizes-longest_fit budget (x ∷ es) =
    ground (arith, sum_sizes-longest_fit (budget - x.value.size) es)

pub longest_fit-head :
    (budget : ℕ) (e : Element) (es : List Element)
    → e.value.size ≤ budget
    → longest_fit budget (e ∷ es) ≡ e ∷ longest_fit (budget - e.value.size) es
unfolding longest_fit
longest_fit-head budget e es h = ground arith

pub length-drop_last : (es : List Element) (n : ℕ) → length es ≤ suc n → length (drop_last es) ≤ n
unfolding drop_last
length-drop_last [] n h = omega arith
length-drop_last (e ∷ []) n h = omega arith
length-drop_last (e ∷ f ∷ es) zero h = absurd (omega arith)
length-drop_last (e ∷ f ∷ es) (suc n) h = omega (arith, length-drop_last (f ∷ es) n)

pub no_elements : (es : List Element) → length es ≤ 0 → es ≡ []
no_elements [] h = refl
no_elements (e ∷ es) h = absurd (omega arith)

pub NoKey-of_none : (k : Text) (es : List Element) → find_key k es ≡ none → NoKey k es
unfolding find_key
NoKey-of_none k [] h = tt
NoKey-of_none k (e ∷ es) h =
    (ground (arith, text_eq_iff e.value.key k), NoKey-of_none k es (ground arith))

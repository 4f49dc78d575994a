-- ===== src/Redirect/Prefixes.antt =====
-- Which paths a rule of internal/redirect/redirect.go matches.
use hamsterd.Common.{
  true, false, List, [], ◌∷◌, Text, ◌≡◌, refl, sym, arith, any, Bool-cases, inl, inr, subst, Any,
  ◌↔◌, ◌++◌, All,
}
use hamsterd.Common.Strings.{has_prefix}
use hamsterd.Redirect.{Rule, matches}

abbrev pub Begins : Text → Text → Type 0
Begins path prefix = (rest : Text) × (path ≡ prefix ++ rest)

has_prefix→Begins : (s p : Text) → has_prefix s p ≡ true → Begins s p
unfolding has_prefix
has_prefix→Begins s [] h = (s, refl)
has_prefix→Begins [] (p ∷ ps) h = absurd (cc)
has_prefix→Begins (c ∷ s) (p ∷ ps) h =
    let (rest, e) = has_prefix→Begins s ps (ground arith) in
    let same : c ≡ p = ground arith in (rest, cc)

has_prefix-append : (p rest : Text) → has_prefix (p ++ rest) p ≡ true
unfolding has_prefix
has_prefix-append [] rest = refl
has_prefix-append (c ∷ p) rest = ground (arith, has_prefix-append p rest)

pub has_prefix_iff : (s p : Text) → (has_prefix s p ≡ true) ↔ Begins s p
has_prefix_iff s p = (
  has_prefix→Begins s p,
  λ b. subst (λ t. has_prefix t p ≡ true) (sym b.1) (has_prefix-append p b.0),
)

any_prefix_iff :
    (path : Text) (ps : List Text) → (any (has_prefix path) ps ≡ true) ↔ Any (Begins path) ps
any_prefix_iff path [] = (λ h. absurd (cc), λ h. absurd h)
any_prefix_iff path (p ∷ ps) = elim (Bool-cases (has_prefix path p)) [
  | inl here ↦ (λ _. inl ((has_prefix_iff path p).0 here), λ _. rw here)
  | inr other ↦ (
    λ h. inr ((any_prefix_iff path ps).0 (rw other at h)),
    λ h. rw other (elim h [
      | inl b ↦ absurd (let yes' = (has_prefix_iff path p).1 b in cc)
      | inr l ↦ (any_prefix_iff path ps).1 l
    ]),
  )
]

not_prefix_iff :
    (path : Text) (ps : List Text)
    → (any (has_prefix path) ps ≡ false) ↔ All (λ p. ¬ Begins path p) ps
not_prefix_iff path [] = (λ _. tt, λ _. refl)
not_prefix_iff path (p ∷ ps) = elim (Bool-cases (has_prefix path p)) [
  | inl here ↦ (
    λ h. absurd (let clash : true ≡ false = rw here at h in cc),
    λ a. absurd (a.0 ((has_prefix_iff path p).0 here)),
  )
  | inr other ↦ (
    λ h. (
      λ b. absurd (let found = (has_prefix_iff path p).1 b in cc),
      (not_prefix_iff path ps).0 (rw other at h),
    ),
    λ a. rw other ((not_prefix_iff path ps).1 a.1),
  )
]

-- A path is routed exactly if it begins with a prefix of `Include` and with none of `Exclude`.
pub matches_iff :
    (path : Text) (rule : Rule)
    → (matches path rule ≡ true)
      ↔ (Any (Begins path) rule.include × All (λ p. ¬ Begins path p) rule.exclude)
unfolding matches
matches_iff path rule = elim (Bool-cases (any (has_prefix path) rule.exclude)) [
  | inl excluded ↦ (
    λ h. absurd (let clash : false ≡ true = rw excluded at h in cc),
    λ a. absurd (let free = (not_prefix_iff path rule.exclude).1 a.1 in cc),
  )
  | inr free ↦ (
    λ h. (
      (any_prefix_iff path rule.include).0 (rw free at h),
      (not_prefix_iff path rule.exclude).0 free,
    ),
    λ a. rw free ((any_prefix_iff path rule.include).1 a.0),
  )
]

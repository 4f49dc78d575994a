-- ===== src/Lemming/Service/SameRules.antt =====
-- The comparison of rules of internal/lemming/service.go is equality.
use hamsterd.Common.{true, List, [], ◌∷◌, Text, text_eq_iff, ◌≡◌, refl, arith}
use hamsterd.Config.Rule.{RedirectRule}
use hamsterd.Lemming.Service.{texts_eq, same_rule, same_rules}

texts_eq→eq : (s t : List Text) → texts_eq s t ≡ true → s ≡ t
texts_eq→eq [] [] h = refl
texts_eq→eq (a ∷ s) (b ∷ t) h = ground (arith, text_eq_iff a b, texts_eq→eq s t)
texts_eq→eq [] (b ∷ t) h = absurd (cc)
texts_eq→eq (a ∷ s) [] h = absurd (cc)

same_rule→eq : (a b : RedirectRule) → same_rule a b ≡ true → a ≡ b
unfolding same_rule
same_rule→eq a b h = ground (
  arith,
  text_eq_iff a.target b.target,
  texts_eq→eq a.domains b.domains,
  texts_eq→eq a.include b.include,
  texts_eq→eq a.exclude b.exclude,
)

pub same_rules→eq : (s t : List RedirectRule) → same_rules s t ≡ true → s ≡ t
unfolding same_rules
same_rules→eq [] [] h = refl
same_rules→eq (a ∷ s) (b ∷ t) h = ground (arith, same_rule→eq a b, same_rules→eq s t)
same_rules→eq [] (b ∷ t) h = absurd (cc)
same_rules→eq (a ∷ s) [] h = absurd (cc)

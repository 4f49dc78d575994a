-- ===== src/Config/Rule/Distinct.antt =====
-- What `ValidateRules` of internal/config/auto.go accepts: no domain twice, and only valid rules.
use hamsterd.Common.{
  ℕ, suc, Bool, none, some, List, [], ◌∷◌, ◌++◌, Text, text_eq_iff, ◌≡◌, ◌≢◌, arith, All,
  Option-cases, inl, inr, subst, sym, All-append, All-imp,
}
use hamsterd.Common.Dict.{lookup, insert, lookup-insert}
use hamsterd.Config.Target.{normalize_domain}
use hamsterd.Config.Rule.{
  RedirectRule, Seen, validate_rule, claim_domains, validate_rules_from, validate_rules,
}

-- The normalised domains of a list of rules, in order.
abbrev pub keys_of : List Text → List Text
keys_of [] = []
keys_of (d ∷ ds) = normalize_domain d ∷ keys_of ds

pub all_keys : List RedirectRule → List Text
all_keys [] = []
all_keys (rule ∷ rules) = keys_of rule.domains ++ all_keys rules

abbrev pub IsAbsent : Text → List Text → Type 0
IsAbsent k = All (λ j. j ≢ k)

abbrev pub AllDistinct : List Text → Type 0
AllDistinct [] = Unit
AllDistinct (k ∷ ks) = IsAbsent k ks × AllDistinct ks

claim_step :
    (d : Text) (ds : List Text) (seen : Seen)
    → (claim_domains (d ∷ ds) seen).1 ≡ none
    → (lookup (normalize_domain d) seen ≡ none)
      × (claim_domains (d ∷ ds) seen ≡ claim_domains ds (insert (normalize_domain d) tt seen))
unfolding claim_domains
claim_step d ds seen h = elim (Option-cases (lookup (normalize_domain d) seen)) [
  | inl new ↦ (new, rw new)
  | inr (v, old) ↦ let clash : some d ≡ none = rw (old, claim_domains) at h in absurd (cc)
]

abbrev IsSeen : Text → Seen → Type 0
IsSeen k seen = lookup k seen ≡ some tt

insert-IsSeen : (k j : Text) (seen : Seen) → IsSeen k seen → IsSeen k (insert j tt seen)
insert-IsSeen k j seen h = ground (arith, lookup-insert j k tt seen)

insert-IsSeen_self : (k : Text) (seen : Seen) → IsSeen k (insert k tt seen)
insert-IsSeen_self k seen = ground (arith, lookup-insert k k tt seen, text_eq_iff k k)

claim_domains-IsSeen :
    (ds : List Text) (seen : Seen) (k : Text)
    → (claim_domains ds seen).1 ≡ none
    → IsSeen k seen
    → IsSeen k (claim_domains ds seen).0 × IsAbsent k (keys_of ds)
unfolding claim_domains
claim_domains-IsSeen [] seen k h e = (e, tt)
claim_domains-IsSeen (d ∷ ds) seen k h e =
    let (new, step) = claim_step d ds seen h in
    let key = normalize_domain d in
    let (kept, rest) =
      claim_domains-IsSeen ds (insert key tt seen) k (rw step at h) (insert-IsSeen k key seen e) in
    (
      subst (λ r. IsSeen k r.0) (sym step) kept,
      (λ same. let clash : lookup k seen ≡ none = rw same at new in absurd (cc), rest),
    )

claim_domains-distinct :
    (ds : List Text) (seen : Seen)
    → (claim_domains ds seen).1 ≡ none
    → AllDistinct (keys_of ds) × All (λ k. IsSeen k (claim_domains ds seen).0) (keys_of ds)
unfolding claim_domains
claim_domains-distinct [] seen h = (tt, tt)
claim_domains-distinct (d ∷ ds) seen h =
    let (new, step) = claim_step d ds seen h in
    let key = normalize_domain d in
    let h' : (claim_domains ds (insert key tt seen)).1 ≡ none = rw step at h in
    let (distinct, all_seen) = claim_domains-distinct ds (insert key tt seen) h' in
    let (kept, absent) =
      claim_domains-IsSeen ds (insert key tt seen) key h' (insert-IsSeen_self key seen) in
    (
      (absent, distinct),
      subst (λ r. All (λ k. IsSeen k r.0) (key ∷ keys_of ds)) (sym step) (kept, all_seen),
    )

IsAbsent-append :
    (k : Text) (xs ys : List Text) → IsAbsent k xs → IsAbsent k ys → IsAbsent k (xs ++ ys)
IsAbsent-append k xs ys = All-append (λ j. j ≢ k) xs ys

AllDistinct-append :
    (xs ys : List Text)
    → AllDistinct xs
    → AllDistinct ys
    → All (λ k. IsAbsent k ys) xs
    → AllDistinct (xs ++ ys)
AllDistinct-append [] ys h k a = k
AllDistinct-append (x ∷ xs) ys h k a =
    (IsAbsent-append x xs ys h.0 a.0, AllDistinct-append xs ys h.1 k a.1)

module _ (allow_remote : Bool) where
  rules_step :
      (i : ℕ) (seen : Seen) (rule : RedirectRule) (rules : List RedirectRule)
      → validate_rules_from i seen (rule ∷ rules) allow_remote ≡ none
      → (validate_rule rule allow_remote ≡ none)
        × ((claim_domains rule.domains seen).1 ≡ none)
        × (validate_rules_from (suc i) (claim_domains rule.domains seen).0 rules allow_remote
            ≡ none)
  unfolding validate_rules_from
  rules_step i seen rule rules h = ground arith

  rules-IsAbsent :
      (i : ℕ) (seen : Seen) (rules : List RedirectRule) (k : Text)
      → validate_rules_from i seen rules allow_remote ≡ none
      → IsSeen k seen
      → IsAbsent k (all_keys rules)
  unfolding all_keys
  rules-IsAbsent i seen [] k h e = tt
  rules-IsAbsent i seen (rule ∷ rules) k h e =
      let (_, claimed, rest) = rules_step i seen rule rules h in
      let (kept, absent) = claim_domains-IsSeen rule.domains seen k claimed e in
      IsAbsent-append k (keys_of rule.domains) (all_keys rules) absent
        (rules-IsAbsent (suc i) _ rules k rest kept)

  rules-AllDistinct :
      (i : ℕ) (seen : Seen) (rules : List RedirectRule)
      → validate_rules_from i seen rules allow_remote ≡ none
      → AllDistinct (all_keys rules) × All (λ r. validate_rule r allow_remote ≡ none) rules
  unfolding all_keys
  rules-AllDistinct i seen [] h = (tt, tt)
  rules-AllDistinct i seen (rule ∷ rules) h =
      let (valid, claimed, rest) = rules_step i seen rule rules h in
      let (distinct, all_seen) = claim_domains-distinct rule.domains seen claimed in
      let seen' = (claim_domains rule.domains seen).0 in
      let (later, all_valid) = rules-AllDistinct (suc i) seen' rules rest in
      (
        AllDistinct-append (keys_of rule.domains) (all_keys rules) distinct later (
            All-imp (λ k. IsSeen k seen') (λ k. IsAbsent k (all_keys rules)) (keys_of rule.domains)
              (λ k e. rules-IsAbsent (suc i) seen' rules k rest e) all_seen),
        (valid, all_valid),
      )

  -- Rules that `ValidateRules` accepts are valid one by one, and no normalised domain stands in
  -- them twice, neither in one rule nor in two.
  pub validate_rules-AllDistinct :
      (rules : List RedirectRule)
      → validate_rules rules allow_remote ≡ none
      → AllDistinct (all_keys rules) × All (λ r. validate_rule r allow_remote ≡ none) rules
  unfolding validate_rules
  validate_rules-AllDistinct rules h = rules-AllDistinct 0 [] rules h

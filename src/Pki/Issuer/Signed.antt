-- ===== src/Pki/Issuer/Signed.antt =====
-- That every entry of the issuer of internal/pki/leaf.go holds a certificate for its hostname.
use hamsterd.Common.{
  ℕ, zero, suc, ◌≡◌, ◌⊎◌, refl, sym, subst, ◌∙◌, none, some, List, [], ◌∷◌, Text, ◌==◌, arith,
  get_elem?, set, All, All-append, Option-cases, inl, inr, if_cases,
}
use hamsterd.Common.Int.{◌≤ℤ◌}
use hamsterd.Common.Clock.{Time}
use hamsterd.Common.Ip.{Ip, parse_ip}
use hamsterd.Common.Dict.{lookup}
use hamsterd.Pki.Leaf.{
  Crypto, Ca, Certificate, Drawn, Template, template_of, leaf_end, create_leaf, sign, fresh,
}
use hamsterd.Pki.Issuer.{
  Outcome, pending, failed, issued, outcome_of, LeafEntry, Issuer, new_issuer, remove_locked,
  evict_oldest, add_entry, Phase, begin_entry, use_entry, begin, settle, discard, Step, begins,
  settles, discards, Reach, here, next,
}

-- The subject of a template: the address, or else the name.
abbrev pub IsNamed : Text → Template → Type 0
IsNamed hostname t =
    ((ip : Ip) × (parse_ip hostname ≡ some ip) × (t.ip_addresses ≡ ip ∷ []))
    ⊎ ((parse_ip hostname ≡ none) × (t.dns_names ≡ hostname ∷ []))

-- A certificate for the hostname that ends at the given time.
pub record IsLeafFor (x : Crypto) (ca : Ca) (hostname : Text) (c : Certificate) (end : Time)
    : Type 0 where
  pub template : Template
  pub der : Text
  pub created : x.create template c.private_key ≡ some der
  pub chain : c.chain ≡ der ∷ ca.der ∷ []
  pub parsed : x.parse der ≡ some c.leaf
  pub named : IsNamed hostname template
  pub until : template.not_after ≡ end
  pub capped : end ≤ℤ ca.not_after

leaf_end-capped : (ca : Ca) (now : Time) → leaf_end ca now ≤ℤ ca.not_after
unfolding leaf_end
leaf_end-capped ca now = ground arith

template_of-IsNamed :
    (ca : Ca) (hostname : Text) (serial : ℕ) (now : Time)
    → IsNamed hostname (template_of ca hostname serial now)
unfolding template_of
template_of-IsNamed ca hostname serial now = elim (Option-cases (parse_ip hostname)) [
  | inl e ↦ inr (e, rw (e, template_of) refl)
  | inr (ip, e) ↦ inl (ip, e, rw (e, template_of) refl)
]

template_of-not_after :
    (ca : Ca) (hostname : Text) (serial : ℕ) (now : Time)
    → (template_of ca hostname serial now).not_after ≡ leaf_end ca now
unfolding template_of
template_of-not_after ca hostname serial now = ground arith

module _ (x : Crypto) (ca : Ca) where
  abbrev Created : Template → Certificate → Type 0
  Created template c =
      (der : Text) × (x.create template c.private_key ≡ some der)
      × (x.parse der ≡ some c.leaf)
      × (c.chain ≡ der ∷ ca.der ∷ [])

  create_leaf-parts :
      (template : Template) (key : ℕ) (c : Certificate)
      → create_leaf x ca template key ≡ some c
      → Created template c
  unfolding create_leaf
  create_leaf-parts template key c run = elim (Option-cases (x.create template key)) [
    | inl f ↦ absurd (ground (arith, f, run))
    | inr (der, f) ↦ elim (Option-cases (x.parse der)) [
      | inl g ↦ absurd (ground (arith, f, g, run))
      | inr (leaf, g) ↦
          let made : Certificate = record {
            chain = der ∷ ca.der ∷ [];
            private_key = key;
            leaf = leaf;
          } in
          let q : made ≡ c = ground (arith, f, g, run) in
          subst (λ k. Created template k) q (der, f, g, refl)
    ]
  ]

  sign-parts :
      (hostname : Text) (drawn : Drawn) (now : Time) (c : Certificate) (end : Time)
      → sign x ca hostname drawn now ≡ some (c, end)
      → (serial key : ℕ) × (create_leaf x ca (template_of ca hostname serial now) key ≡ some c)
        × (leaf_end ca now ≡ end)
  unfolding sign
  sign-parts hostname drawn now c end run = elim (Option-cases drawn.key) [
    | inl f ↦ absurd (ground (arith, f, run))
    | inr (key, f) ↦ elim (Option-cases drawn.serial) [
      | inl g ↦ absurd (ground (arith, f, g, run))
      | inr (serial, g) ↦ (serial, key, ground (arith, f, g, run), ground (arith, f, g, run))
    ]
  ]

  sign-IsLeafFor :
      (hostname : Text) (drawn : Drawn) (now : Time) (c : Certificate) (end : Time)
      → sign x ca hostname drawn now ≡ some (c, end)
      → IsLeafFor x ca hostname c end
  sign-IsLeafFor hostname drawn now c end run =
      let (serial, key, made, until) = sign-parts hostname drawn now c end run in
      let (der, created, parsed, chain) =
        create_leaf-parts (template_of ca hostname serial now) key c made in
      record {
        template = template_of ca hostname serial now;
        der = der;
        created = created;
        chain = chain;
        parsed = parsed;
        named = template_of-IsNamed ca hostname serial now;
        until = template_of-not_after ca hostname serial now ∙ until;
        capped = subst (λ t. t ≤ℤ ca.not_after) until (leaf_end-capped ca now);
      }

  abbrev pub IsSigned : LeafEntry → Type 0
  IsSigned entry =
      (c : Certificate) (end : Time)
      → entry.outcome ≡ issued c end
      → IsLeafFor x ca entry.hostname c end

  pub All-get_elem? :
      (xs : List LeafEntry) (id : ℕ) (entry : LeafEntry)
      → All IsSigned xs
      → get_elem? xs id ≡ some entry
      → IsSigned entry
  All-get_elem? [] id entry a e = absurd (cc)
  All-get_elem? (z ∷ xs) zero entry (p, a) e =
      let q : z ≡ entry = ground (arith, e) in subst IsSigned q p
  All-get_elem? (z ∷ xs) (suc id) entry (p, a) e = All-get_elem? xs id entry a e

  All-set :
      (xs : List LeafEntry) (id : ℕ) (entry : LeafEntry)
      → All IsSigned xs
      → IsSigned entry
      → All IsSigned (set xs id entry)
  All-set [] id entry a p = tt
  All-set (z ∷ xs) zero entry (q, a) p = (p, a)
  All-set (z ∷ xs) (suc id) entry (q, a) p = (q, All-set xs id entry a p)

  evict_oldest-heap : (i : Issuer) → (evict_oldest i).heap ≡ i.heap
  unfolding evict_oldest remove_locked
  evict_oldest-heap i = ground arith

  begin_entry-IsSigned :
      (hostname : Text) (i : Issuer)
      → All IsSigned i.heap
      → All IsSigned (begin_entry hostname i).0.heap
  unfolding begin_entry add_entry
  begin_entry-IsSigned hostname i a =
      All-append IsSigned (evict_oldest i).heap
        (record { hostname = hostname; outcome = pending } ∷ [])
        (subst (All IsSigned) (sym (evict_oldest-heap i)) a) ((λ c end e. absurd (cc)), tt)

  use_entry-IsSigned :
      (now : Time) (hostname : Text) (id : ℕ) (outcome : Outcome) (i : Issuer)
      → All IsSigned i.heap
      → All IsSigned (use_entry ca now hostname id outcome i).0.heap
  unfolding use_entry remove_locked
  use_entry-IsSigned now hostname id pending i a = a
  use_entry-IsSigned now hostname id failed i a =
      begin_entry-IsSigned hostname (remove_locked hostname i) a
  use_entry-IsSigned now hostname id (issued certificate not_after) i a =
      if_cases (λ (r : Issuer × Phase). All IsSigned r.0.heap) (fresh ca now not_after) (λ _. a)
        λ _. begin_entry-IsSigned hostname (remove_locked hostname i) a

  begin-IsSigned :
      (now : Time) (hostname : Text) (i : Issuer)
      → All IsSigned i.heap
      → All IsSigned (begin ca now hostname i).0.heap
  unfolding begin
  begin-IsSigned now hostname i a = elim (Option-cases (lookup hostname i.entries)) [
    | inl e ↦ rw (e, begin) (begin_entry-IsSigned hostname i a)
    | inr (id, e) ↦ elim (Option-cases (get_elem? i.heap id)) [
      | inl f ↦ rw (e, begin, f) (begin_entry-IsSigned hostname i a)
      | inr (entry, f) ↦ rw (e, begin, f) (use_entry-IsSigned now hostname id entry.outcome i a)
    ]
  ]

  outcome_of-IsSigned :
      (entry : LeafEntry) (drawn : Drawn) (now : Time)
      → IsSigned (record entry { outcome = outcome_of (sign x ca entry.hostname drawn now) })
  unfolding outcome_of
  outcome_of-IsSigned entry drawn now c end e =
      elim (Option-cases (sign x ca entry.hostname drawn now)) [
        | inl f ↦ absurd (ground (arith, f, e))
        | inr ((made, until), f) ↦
            sign-IsLeafFor entry.hostname drawn now c end (ground (arith, f, e))
      ]

  settle-IsSigned :
      (id : ℕ) (drawn : Drawn) (now : Time) (i : Issuer)
      → All IsSigned i.heap
      → All IsSigned (settle x ca id drawn now i).heap
  unfolding settle
  settle-IsSigned id drawn now i a = elim (Option-cases (get_elem? i.heap id)) [
    | inl f ↦ rw (f, settle) a
    | inr (entry, f) ↦ rw (f, settle) (All-set i.heap id _ a (outcome_of-IsSigned entry drawn now))
  ]

  discard-heap : (id : ℕ) (hostname : Text) (i : Issuer) → (discard id hostname i).heap ≡ i.heap
  unfolding discard remove_locked
  discard-heap id hostname i = elim (Option-cases (lookup hostname i.entries)) [
    | inl e ↦ rw (e, discard) refl
    | inr (other, e) ↦
        rw (e, discard)
          (if_cases (λ (j : Issuer). j.heap ≡ i.heap) (other == id) (λ _. refl) λ _. refl)
  ]

  Step-IsSigned : {i j : Issuer} → Step x ca i j → All IsSigned i.heap → All IsSigned j.heap
  Step-IsSigned {i} (begins now hostname e) a =
      subst (λ j. All IsSigned j.heap) (sym e) (begin-IsSigned now hostname i a)
  Step-IsSigned {i} (settles id entry drawn now f p e) a =
      subst (λ j. All IsSigned j.heap) (sym e) (settle-IsSigned id drawn now i a)
  Step-IsSigned {i} (discards id entry f p e) a =
      subst (λ j. All IsSigned j.heap) (sym e)
        (subst (All IsSigned) (sym (discard-heap id entry.hostname i)) a)

  pub Reach-IsSigned :
      (max_entries : ℕ) {i : Issuer} → Reach x ca (new_issuer max_entries) i → All IsSigned i.heap
  unfolding new_issuer
  Reach-IsSigned max_entries here = tt
  Reach-IsSigned max_entries (next r st) = Step-IsSigned st (Reach-IsSigned max_entries r)

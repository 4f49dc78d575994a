-- ===== src/Pki/Issuer/Invariant.antt =====
-- That the list and the map of the issuer of internal/pki/leaf.go agree, and their bound.
use hamsterd.Common.{
  ℕ, zero, suc, ◌≤◌, ◌<◌, ◌≡◌, refl, sym, subst, ap, true, Option, none, some, List, [], ◌∷◌, ◌++◌,
  Text, text_eq, text_eq_iff, text_eq_refl, ◌==◌, leb, length, length-append, arith, is_some,
  get_elem?, set, Option-cases, Bool-cases, inl, inr, if_cases,
}
use hamsterd.Common.Clock.{Time}
use hamsterd.Common.Dict.{Dict, lookup, insert, delete, lookup-insert, lookup-delete}
use hamsterd.Pki.Leaf.{Crypto, Ca, Drawn, fresh}
use hamsterd.Pki.Issuer.{
  Outcome, pending, failed, issued, LeafEntry, Issuer, new_issuer, remove_name, remove_locked,
  evict_oldest, add_entry, Phase, begin_entry, use_entry, begin, settle, discard, Step, begins,
  settles, discards, Reach, here, next,
}
use hamsterd.Pki.Issuer.Names.{
  has_name, IsDistinct, has_name-remove_name, remove_name-IsDistinct, length-remove_name,
  length-remove_first, has_name-append, append-IsDistinct,
}

-- The entry of a hostname was made for that hostname.
abbrev pub IsFor : Text → Option LeafEntry → Type 0
IsFor h o = (entry : LeafEntry) × (o ≡ some entry) × (entry.hostname ≡ h)

pub record IsIndexed (i : Issuer) : Type 0 where
  pub positive : 1 ≤ i.max
  pub distinct : IsDistinct i.order
  pub same : (h : Text) → is_some (lookup h i.entries) ≡ has_name h i.order
  pub within : length i.order ≤ i.max
  pub refers : (h : Text) (id : ℕ) → lookup h i.entries ≡ some id → IsFor h (get_elem? i.heap id)

remove_locked-same :
    (h j : Text) (i : Issuer)
    → IsDistinct i.order
    → is_some (lookup j i.entries) ≡ has_name j i.order
    → is_some (lookup j (delete h i.entries)) ≡ has_name j (remove_name h i.order)
remove_locked-same h j i d s =
    ground (arith, lookup-delete h j i.entries, has_name-remove_name h j i.order d)

lookup-delete-some :
    (h j : Text) (id : ℕ) (m : Dict ℕ) → lookup j (delete h m) ≡ some id → lookup j m ≡ some id
lookup-delete-some h j id m e = ground (arith, lookup-delete h j m)

pub remove_locked-IsIndexed : (h : Text) (i : Issuer) → IsIndexed i → IsIndexed (remove_locked h i)
unfolding remove_locked
remove_locked-IsIndexed h i v = record {
  positive = v.positive;
  distinct = remove_name-IsDistinct h i.order v.distinct;
  same = λ j. remove_locked-same h j i v.distinct (v.same j);
  within = omega (arith, length-remove_name h i.order, v.within);
  refers = λ j id e. v.refers j id (lookup-delete-some h j id i.entries e);
}

-- What eviction leaves: room, and no name that was not there.
record HasRoom (hostname : Text) (i : Issuer) : Type 0 where
  indexed : IsIndexed i
  room : length i.order < i.max
  absent : lookup hostname i.entries ≡ none

remove_oldest-HasRoom :
    (hostname : Text) (i : Issuer) (order : List Text)
    → i.order ≡ order
    → leb i.max (length order) ≡ true
    → IsIndexed i
    → lookup hostname i.entries ≡ none
    → HasRoom hostname (elim order [ [] ↦ i | name ∷ rest ↦ remove_locked name i ])
unfolding remove_locked
remove_oldest-HasRoom hostname i [] o full v e = absurd (ground (arith, v.positive))
remove_oldest-HasRoom hostname i (name ∷ rest) o full v e = record {
  indexed = remove_locked-IsIndexed name i v;
  room =
      subst (λ x. length (remove_name name x) < i.max) (sym o)
        (omega (arith, length-remove_first name rest, v.within, ap length o));
  absent = ground (arith, lookup-delete name hostname i.entries);
}

evict_oldest-HasRoom :
    (hostname : Text) (i : Issuer)
    → IsIndexed i
    → lookup hostname i.entries ≡ none
    → HasRoom hostname (evict_oldest i)
unfolding evict_oldest
evict_oldest-HasRoom hostname i v e =
    if_cases (HasRoom hostname) (leb i.max (length i.order))
      (λ full. remove_oldest-HasRoom hostname i i.order refl full v e)
      (λ room. record { indexed = v; room = ground arith; absent = e })

get_elem?-append :
    (xs : List LeafEntry) (id : ℕ) (x y : LeafEntry)
    → get_elem? xs id ≡ some x
    → get_elem? (xs ++ y ∷ []) id ≡ some x
get_elem?-append [] id x y e = absurd (cc)
get_elem?-append (z ∷ xs) zero x y e = e
get_elem?-append (z ∷ xs) (suc id) x y e = get_elem?-append xs id x y e

get_elem?-last :
    (xs : List LeafEntry) (y : LeafEntry) → get_elem? (xs ++ y ∷ []) (length xs) ≡ some y
get_elem?-last [] y = refl
get_elem?-last (z ∷ xs) y = get_elem?-last xs y

add_entry-refers :
    (hostname h : Text) (id : ℕ) (i : Issuer)
    → IsIndexed i
    → lookup h (insert hostname (length i.heap) i.entries) ≡ some id
    → IsFor h (get_elem? (i.heap ++ record { hostname = hostname; outcome = pending } ∷ []) id)
add_entry-refers hostname h id i v e = elim (Bool-cases (text_eq hostname h)) [
  | inl same ↦
      let q : length i.heap ≡ id =
        ground (arith, lookup-insert hostname h (length i.heap) i.entries) in
      subst
        (λ k.
          IsFor h (get_elem? (i.heap ++ record { hostname = hostname; outcome = pending } ∷ []) k))
        q
        (
          record { hostname = hostname; outcome = pending },
          get_elem?-last i.heap _,
          ground (arith, same, text_eq_iff hostname h),
        )
  | inr other ↦
      let (entry, found, named) =
        v.refers h id (ground (arith, lookup-insert hostname h (length i.heap) i.entries)) in
      (entry, get_elem?-append i.heap id entry _ found, named)
]

add_entry-IsIndexed :
    (hostname : Text) (i : Issuer) → HasRoom hostname i → IsIndexed (add_entry hostname i)
unfolding add_entry
add_entry-IsIndexed hostname i r = record {
  positive = r.indexed.positive;
  distinct =
      append-IsDistinct hostname i.order (ground (arith, r.indexed.same hostname, r.absent))
        r.indexed.distinct;
  same = λ j. ground (
    arith,
    lookup-insert hostname j (length i.heap) i.entries,
    has_name-append j hostname i.order,
    r.indexed.same j,
  );
  within = omega (arith, length-append i.order (hostname ∷ []), r.room);
  refers = λ j id e. add_entry-refers hostname j id i r.indexed e;
}

begin_entry-IsIndexed :
    (hostname : Text) (i : Issuer)
    → IsIndexed i
    → lookup hostname i.entries ≡ none
    → IsIndexed (begin_entry hostname i).0
unfolding begin_entry
begin_entry-IsIndexed hostname i v e =
    add_entry-IsIndexed hostname (evict_oldest i) (evict_oldest-HasRoom hostname i v e)

renew-IsIndexed :
    (hostname : Text) (i : Issuer)
    → IsIndexed i
    → IsIndexed (begin_entry hostname (remove_locked hostname i)).0
unfolding remove_locked
renew-IsIndexed hostname i v =
    begin_entry-IsIndexed hostname (remove_locked hostname i) (remove_locked-IsIndexed hostname i v)
      (ground (arith, lookup-delete hostname hostname i.entries, text_eq_refl hostname))

use_entry-IsIndexed :
    (ca : Ca) (now : Time) (hostname : Text) (id : ℕ) (outcome : Outcome) (i : Issuer)
    → IsIndexed i
    → IsIndexed (use_entry ca now hostname id outcome i).0
unfolding use_entry
use_entry-IsIndexed ca now hostname id pending i v = v
use_entry-IsIndexed ca now hostname id failed i v = renew-IsIndexed hostname i v
use_entry-IsIndexed ca now hostname id (issued certificate not_after) i v =
    if_cases (λ (r : Issuer × Phase). IsIndexed r.0) (fresh ca now not_after) (λ _. v)
      (λ _. renew-IsIndexed hostname i v)

begin-IsIndexed :
    (ca : Ca) (now : Time) (hostname : Text) (i : Issuer)
    → IsIndexed i
    → IsIndexed (begin ca now hostname i).0
unfolding begin
begin-IsIndexed ca now hostname i v = elim (Option-cases (lookup hostname i.entries)) [
  | inl e ↦ rw (e, begin) (begin_entry-IsIndexed hostname i v e)
  | inr (id, e) ↦
      let (entry, found, named) = v.refers hostname id e in
      rw (e, begin, found) (use_entry-IsIndexed ca now hostname id entry.outcome i v)
]

-- A write that keeps the hostname of an entry.
set-IsFor :
    (xs : List LeafEntry) (id : ℕ) (entry : LeafEntry) (outcome : Outcome) (j : ℕ) (h : Text)
    → get_elem? xs id ≡ some entry
    → IsFor h (get_elem? xs j)
    → IsFor h (get_elem? (set xs id (record entry { outcome = outcome })) j)
set-IsFor [] id entry outcome j h e f = f
set-IsFor (z ∷ xs) zero entry outcome zero h e (found, q, named) =
    (record entry { outcome = outcome }, refl, ground (arith, e, q, named))
set-IsFor (z ∷ xs) zero entry outcome (suc j) h e f = f
set-IsFor (z ∷ xs) (suc id) entry outcome zero h e f = f
set-IsFor (z ∷ xs) (suc id) entry outcome (suc j) h e f = set-IsFor xs id entry outcome j h e f

settle-IsIndexed :
    (x : Crypto) (ca : Ca) (id : ℕ) (drawn : Drawn) (now : Time) (i : Issuer)
    → IsIndexed i
    → IsIndexed (settle x ca id drawn now i)
unfolding settle
settle-IsIndexed x ca id drawn now i v = elim (Option-cases (get_elem? i.heap id)) [
  | inl f ↦ rw (f, settle) v
  | inr (entry, f) ↦
      rw (f, settle)
        (record {
          positive = v.positive;
          distinct = v.distinct;
          same = v.same;
          within = v.within;
          refers = λ h j e. set-IsFor i.heap id entry _ j h f (v.refers h j e);
        })
]

discard-IsIndexed :
    (id : ℕ) (hostname : Text) (i : Issuer) → IsIndexed i → IsIndexed (discard id hostname i)
unfolding discard
discard-IsIndexed id hostname i v = elim (Option-cases (lookup hostname i.entries)) [
  | inl f ↦ rw (f, discard) v
  | inr (other, f) ↦
      rw (f, discard)
        (if_cases IsIndexed (other == id) (λ _. remove_locked-IsIndexed hostname i v) λ _. v)
]

module _ (x : Crypto) (ca : Ca) where
  pub Step-IsIndexed : {i j : Issuer} → Step x ca i j → IsIndexed i → IsIndexed j
  Step-IsIndexed {i} (begins now hostname e) v =
      subst IsIndexed (sym e) (begin-IsIndexed ca now hostname i v)
  Step-IsIndexed {i} (settles id entry drawn now f p e) v =
      subst IsIndexed (sym e) (settle-IsIndexed x ca id drawn now i v)
  Step-IsIndexed {i} (discards id entry f p e) v =
      subst IsIndexed (sym e) (discard-IsIndexed id entry.hostname i v)

  -- In every interleaving of calls of `Certificate`, from a new issuer on: the list of names has no
  -- repetition and at most `max` names, which is at least 1; it names exactly the hostnames of the
  -- map; and the map takes a hostname to an entry that was made for it.
  pub Reach-IsIndexed :
      (max_entries : ℕ) {i : Issuer} → Reach x ca (new_issuer max_entries) i → IsIndexed i
  unfolding new_issuer lookup has_name
  Reach-IsIndexed max_entries here = record {
    positive = ground arith;
    distinct = tt;
    same = λ h. refl;
    within = omega arith;
    refers = λ h id e. absurd (cc);
  }
  Reach-IsIndexed max_entries (next r st) = Step-IsIndexed st (Reach-IsIndexed max_entries r)

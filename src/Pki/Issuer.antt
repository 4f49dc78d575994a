-- ===== src/Pki/Issuer.antt =====
-- `Issuer` of internal/pki/leaf.go: the cache of certificates, with any number of callers.
pub mod Names
pub mod Invariant
pub mod Signed
pub mod Valid
use hamsterd.Common.{
  ℕ, ◌-◌, ◌≡◌, Bool, true, false, Option, none, some, List, [], ◌∷◌, ◌++◌, Text, text_eq, ◌==◌, ltb,
  leb, length, get_elem?, set, if◌then◌else◌,
}
use hamsterd.Common.Clock.{Time}
use hamsterd.Common.Dict.{Dict, lookup, insert, delete}
use hamsterd.Pki.Leaf.{Crypto, Ca, Certificate, Drawn, sign, fresh}

-- What a `leafEntry` holds; its channel is closed unless it is pending.
pub data Outcome : Type 0 where
  pending failed : Outcome
  issued : Certificate → Time → Outcome

-- `hostname` is the argument of the call of `Certificate` that made the entry.
pub record LeafEntry : Type 0 where
  pub hostname : Text
  pub outcome : Outcome

-- `heap` holds every entry ever made; `entries` refers to it by position.
pub record Issuer : Type 0 where
  pub max : ℕ
  pub entries : Dict ℕ
  pub order : List Text
  pub heap : List LeafEntry

unfoldable pub new_issuer : ℕ → Issuer
new_issuer max_entries = record {
  max = if ltb max_entries 1 then 1 else max_entries;
  entries = [];
  order = [];
  heap = [];
}

unfoldable pub remove_name : Text → List Text → List Text
remove_name hostname [] = []
remove_name hostname (name ∷ order) =
    if text_eq name hostname then order else name ∷ remove_name hostname order

unfoldable pub remove_locked : Text → Issuer → Issuer
remove_locked hostname i = record i {
  entries = delete hostname i.entries;
  order = remove_name hostname i.order;
}

-- Makes room for one entry.
unfoldable pub evict_oldest : Issuer → Issuer
evict_oldest i =
    if leb i.max (length i.order)
    then elim i.order [ [] ↦ i | name ∷ rest ↦ remove_locked name i ]
    else i

unfoldable pub add_entry : Text → Issuer → Issuer
add_entry hostname i = record i {
  entries = insert hostname (length i.heap) i.entries;
  order = i.order ++ hostname ∷ [];
  heap = i.heap ++ record { hostname = hostname; outcome = pending } ∷ [];
}

-- Where a call of `Certificate` is after its first section under the lock.
pub data Phase : Type 0 where
  serves : Certificate → Phase
  -- waits for the entry at this position
  waits : ℕ → Phase
  -- signs for the new entry at this position
  signs : ℕ → Phase

unfoldable pub begin_entry : Text → Issuer → Issuer × Phase
begin_entry hostname i =
    let room = evict_oldest i in (add_entry hostname room, signs (length room.heap))

unfoldable pub use_entry : Ca → Time → Text → ℕ → Outcome → Issuer → Issuer × Phase
use_entry ca now hostname id pending i = (i, waits id)
use_entry ca now hostname id failed i = begin_entry hostname (remove_locked hostname i)
use_entry ca now hostname id (issued certificate not_after) i =
    if fresh ca now not_after
    then (i, serves certificate)
    else begin_entry hostname (remove_locked hostname i)

-- The first section of a round of `Certificate`.
unfoldable pub begin : Ca → Time → Text → Issuer → Issuer × Phase
begin ca now hostname i = elim (lookup hostname i.entries) [
  | none ↦ begin_entry hostname i
  | some id ↦ elim (get_elem? i.heap id) [
    | none ↦ begin_entry hostname i
    | some entry ↦ use_entry ca now hostname id entry.outcome i
  ]
]

-- What a call that waits does once the channel is closed; it goes on with a new round if it retries.
pub data Woken : Type 0 where
  blocked fails retries : Woken

unfoldable pub wake : Outcome → Woken
wake pending = blocked
wake failed = fails
wake (issued certificate not_after) = retries

unfoldable pub outcome_of : Option (Certificate × Time) → Outcome
outcome_of none = failed
outcome_of (some (certificate, not_after)) = issued certificate not_after

-- The end of signing, which closes the channel of the entry.
unfoldable pub settle : Crypto → Ca → ℕ → Drawn → Time → Issuer → Issuer
settle x ca id drawn now i = elim (get_elem? i.heap id) [
  | none ↦ i
  | some entry ↦ record i {
    heap =
        set i.heap id (record entry { outcome = outcome_of (sign x ca entry.hostname drawn now) });
  }
]

-- What the call that signs returns; `none` is an error.
unfoldable pub own_result : Outcome → Option Certificate
own_result pending = none
own_result failed = none
own_result (issued certificate not_after) = some certificate

-- The section after a failure: the entry goes unless another one has its place.
unfoldable pub discard : ℕ → Text → Issuer → Issuer
discard id hostname i = elim (lookup hostname i.entries) [
  | none ↦ i
  | some other ↦ if other == id then remove_locked hostname i else i
]

pub data Step (x : Crypto) (ca : Ca) (i j : Issuer) : Type 0 where
  begins : (now : Time) (hostname : Text) → j ≡ (begin ca now hostname i).0 → Step x ca i j
  settles :
      (id : ℕ) (entry : LeafEntry) (drawn : Drawn) (now : Time)
      → get_elem? i.heap id ≡ some entry
      → entry.outcome ≡ pending
      → j ≡ settle x ca id drawn now i
      → Step x ca i j
  discards :
      (id : ℕ) (entry : LeafEntry)
      → get_elem? i.heap id ≡ some entry
      → entry.outcome ≡ failed
      → j ≡ discard id entry.hostname i
      → Step x ca i j

pub data Reach (x : Crypto) (ca : Ca) (i : Issuer) : Issuer → Type 0 where
  here : Reach x ca i i
  next : {j k : Issuer} → Reach x ca i j → Step x ca j k → Reach x ca i k

-- ===== src/Cache/Store/Keeps.antt =====
-- What the operations on the store keep: its invariant, its bound and the fields they do not touch.
use hamsterd.Common.{
  ℕ, zero, suc, ◌≤◌, ◌≡◌, refl, ◌∙◌, none, Text, text_eq_refl, arith, Bool-cases, Option-cases, inl,
  inr, ltb, length,
}
use hamsterd.Common.Dict.{Dict, lookup, lookup-delete}
use hamsterd.Cache.Disk.{Removes, Disk}
use hamsterd.Cache.Store.{Store, back, unindex, remove_locked, evict_loop, evict_locked, push_front}
use hamsterd.Cache.Store.Invariant.{
  IsValid, remove_locked-IsValid, evict_locked-IsValid, total-evict_locked-le, push_front-IsValid,
}

-- The counter that only captures change, and the limits, which nothing changes.
pub record SameFrame (s s' : Store) : Type 0 where
  pub max_bytes : s'.max_bytes ≡ s.max_bytes
  pub max_object_bytes : s'.max_object_bytes ≡ s.max_object_bytes
  pub pending : s'.pending ≡ s.pending

pub SameFrame-trans : {s t u : Store} → SameFrame s t → SameFrame t u → SameFrame s u
SameFrame-trans f g = record {
  max_bytes = g.max_bytes ∙ f.max_bytes;
  max_object_bytes = g.max_object_bytes ∙ f.max_object_bytes;
  pending = g.pending ∙ f.pending;
}

pub same_frame : (s : Store) → SameFrame s s
same_frame s = record { max_bytes = refl; max_object_bytes = refl; pending = refl }

pub record IsBounded (s : Store) : Type 0 where
  pub valid : IsValid s
  pub within : s.total ≤ s.max_bytes

pub record Keeps (s s' : Store) : Type 0 where
  pub frame : SameFrame s s'
  pub bounded : IsBounded s → IsBounded s'

pub Keeps-refl : (s : Store) → Keeps s s
Keeps-refl s = record { frame = same_frame s; bounded = λ b. b }

pub Keeps-trans : {s t u : Store} → Keeps s t → Keeps t u → Keeps s u
Keeps-trans k l = record {
  frame = SameFrame-trans k.frame l.frame;
  bounded = λ b. l.bounded (k.bounded b);
}

-- The invariant is about the index alone.
pub IsBounded-rest :
    (s : Store) (disk : Disk) (n pending : ℕ) (refreshing : Dict (Unit {0}))
    → IsBounded s
    → IsBounded
        (record s { disk = disk; next_temporary = n; pending = pending; refreshing = refreshing })
IsBounded-rest s disk n pending refreshing b = record {
  valid = record {
    distinct = b.valid.distinct;
    fresh = b.valid.fresh;
    counted = b.valid.counted;
    agree = b.valid.agree;
  };
  within = b.within;
}

pub Keeps-disk :
    (s : Store) (disk : Disk) (n : ℕ) → Keeps s (record s { disk = disk; next_temporary = n })
Keeps-disk s disk n = record {
  frame = record { max_bytes = refl; max_object_bytes = refl; pending = refl };
  bounded = IsBounded-rest s disk n s.pending s.refreshing;
}

remove_locked-SameFrame :
    (removes : Removes) (key : Text) (s : Store) → SameFrame s (remove_locked removes key s)
unfolding remove_locked unindex
remove_locked-SameFrame removes key s = ground arith

total-remove_locked-le :
    (removes : Removes) (key : Text) (s : Store) → (remove_locked removes key s).total ≤ s.total
unfolding remove_locked unindex
total-remove_locked-le removes key s = ground arith

pub remove_locked-Keeps :
    (removes : Removes) (key : Text) (s : Store) → Keeps s (remove_locked removes key s)
remove_locked-Keeps removes key s =
    let frame = remove_locked-SameFrame removes key s in
    record {
      frame = frame;
      bounded = λ b. record {
        valid = remove_locked-IsValid removes key s b.valid;
        within = omega (arith, total-remove_locked-le removes key s, b.within, frame.max_bytes);
      };
    }

pub lookup-remove_locked :
    (removes : Removes) (key : Text) (s : Store)
    → lookup key (remove_locked removes key s).entries ≡ none
unfolding remove_locked unindex
lookup-remove_locked removes key s =
    ground (arith, lookup-delete key key s.entries, text_eq_refl key)

evict_loop-SameFrame :
    (removes : Removes) (fuel : ℕ) (s : Store) → SameFrame s (evict_loop removes fuel s)
unfolding evict_loop
evict_loop-SameFrame removes zero s = same_frame s
evict_loop-SameFrame removes (suc fuel) s = elim (Bool-cases (ltb s.max_bytes s.total)) [
  | inr fits ↦ rw (fits, evict_loop) (same_frame s)
  | inl over ↦ elim (Option-cases (back s.index)) [
    | inl empty ↦ rw (over, empty, evict_loop) (same_frame s)
    | inr (e, last) ↦
        rw (over, last, evict_loop)
          (SameFrame-trans (remove_locked-SameFrame removes e.value.key s)
            (evict_loop-SameFrame removes fuel _))
  ]
]

pub evict_locked-SameFrame : (removes : Removes) (s : Store) → SameFrame s (evict_locked removes s)
unfolding evict_locked
evict_locked-SameFrame removes s = evict_loop-SameFrame removes (length s.index) s

push_front-SameFrame : (key : Text) (size : ℕ) (s : Store) → SameFrame s (push_front key size s)
unfolding push_front
push_front-SameFrame key size s = record {
  max_bytes = refl;
  max_object_bytes = refl;
  pending = refl;
}

-- A new entry and the eviction that follows.
pub evict_locked-push_front-Keeps :
    (removes : Removes) (key : Text) (size : ℕ) (s : Store)
    → lookup key s.entries ≡ none
    → Keeps s (evict_locked removes (push_front key size s))
evict_locked-push_front-Keeps removes key size s absent =
    let frame = evict_locked-SameFrame removes (push_front key size s) in
    record {
      frame = SameFrame-trans (push_front-SameFrame key size s) frame;
      bounded = λ b.
          let v = push_front-IsValid key size s b.valid absent in
          record {
            valid = evict_locked-IsValid removes _ v;
            within = rw frame.max_bytes (total-evict_locked-le removes _ v);
          };
    }

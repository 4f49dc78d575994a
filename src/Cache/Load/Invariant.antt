-- ===== src/Cache/Load/Invariant.antt =====
-- `load` keeps the invariant of the store whatever the system answers.
use hamsterd.Common.{
  ◌≡◌, refl, some, Bool, Text, Option-cases, inl, inr, if_elim, sym, ◌∙◌, ◌<◌, is_some, not, ◌&&◌,
}
use hamsterd.Common.Clock.{Time}
use hamsterd.Common.Dict.{lookup}
use hamsterd.Cache.Metadata.{Codec}
use hamsterd.Cache.Store.{Store}
use hamsterd.Cache.Store.Index.{find_key}
use hamsterd.Cache.Store.Index.Front.{
  move_to_front-All, move_to_front-IsDistinct, sum_sizes-move_to_front, find_key-move_to_front,
}
use hamsterd.Cache.Store.Invariant.{IsValid}
use hamsterd.Cache.Store.Keeps.{
  IsBounded, IsBounded-rest, Keeps, Keeps-refl, Keeps-trans, remove_locked-Keeps,
}
use hamsterd.Cache.Load.{
  LoadFaults, Found, missing, unusable, usable, check_meta, mark_used, start_refresh, load,
  is_stale,
}

mark_used-IsValid :
    (now : Time) (key : Text) (s : Store) → IsValid s → IsValid (mark_used now key s)
unfolding mark_used
mark_used-IsValid now key s v = elim (Option-cases (lookup key s.entries)) [
  | inl absent ↦
      rw (absent, mark_used)
        (record { distinct = v.distinct; fresh = v.fresh; counted = v.counted; agree = v.agree })
  | inr (e, present) ↦
      let found : find_key key s.index ≡ some e = sym (v.agree key) ∙ present in
      rw (present, mark_used)
        (record {
          distinct = move_to_front-IsDistinct key s.index e found v.distinct;
          fresh = move_to_front-All key s.index e found (λ x. x.id < s.next_id) v.fresh;
          counted = v.counted ∙ sym (sum_sizes-move_to_front key s.index e found v.distinct);
          agree = λ k. v.agree k ∙ sym (find_key-move_to_front key s.index e found v.distinct k);
        })
]

mark_used-Keeps : (now : Time) (key : Text) (s : Store) → Keeps s (mark_used now key s)
unfolding mark_used
mark_used-Keeps now key s = record {
  frame = record { max_bytes = refl; max_object_bytes = refl; pending = refl };
  bounded = λ b. record { valid = mark_used-IsValid now key s b.valid; within = b.within };
}

start_refresh-Keeps :
    (stale : Bool) (key : Text) (s : Store) → Keeps s (start_refresh stale key s).0
unfolding start_refresh
start_refresh-Keeps stale key s =
    if_elim (λ (r : Store × Bool). Keeps s r.0) (stale && not (is_some (lookup key s.refreshing)))
      (record {
        frame = record { max_bytes = refl; max_object_bytes = refl; pending = refl };
        bounded = IsBounded-rest s s.disk s.next_temporary s.pending _;
      })
      (Keeps-refl s)

pub load-Keeps :
    (codec : Codec) (faults : LoadFaults) (now : Time) (key : Text) (s : Store)
    → Keeps s (load codec faults now key s).0
unfolding load
load-Keeps codec faults now key s = by_found (check_meta codec faults now key s.disk) refl
  where
    by_found :
        (f : Found)
        → check_meta codec faults now key s.disk ≡ f
        → Keeps s (load codec faults now key s).0
    by_found missing e = rw (e, load) (Keeps-refl s)
    by_found unusable e = rw (e, load) (remove_locked-Keeps faults.removes key s)
    by_found (usable m body) e =
        rw (e, load)
          (Keeps-trans (mark_used-Keeps now key s) (start_refresh-Keeps (is_stale now m) key _))

-- On every branch of `load`, whatever the system answers, the index and the map of the store go on
-- agreeing, `total` is the sum of the sizes and within `maxBytes`, and `pending` stays.
pub load-IsBounded :
    (codec : Codec) (faults : LoadFaults) (now : Time) (key : Text) (s : Store)
    → IsBounded s
    → IsBounded (load codec faults now key s).0
      × ((load codec faults now key s).0.pending ≡ s.pending)
load-IsBounded codec faults now key s b =
    let k = load-Keeps codec faults now key s in (k.bounded b, k.frame.pending)

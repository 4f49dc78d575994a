-- ===== src/Cache/Capture/Safety.antt =====
-- What every interleaving of downloads and loads keeps.
use hamsterd.Common.{
  ℕ, zero, suc, ◌+◌, ◌≤◌, ◌≡◌, ◌∙◌, refl, sym, Option, none, some, List, [], ◌∷◌, ◌++◌, Text,
  get_elem?, set, All, All-append, All-imp, arith, if_cases, not, subst,
}
use hamsterd.Common.Clock.{Time}
use hamsterd.Cache.Metadata.{Metadata, Codec}
use hamsterd.Cache.Store.{Store}
use hamsterd.Cache.Store.Keeps.{Keeps, Keeps-refl, Keeps-trans, Keeps-disk, IsBounded-rest}
use hamsterd.Cache.Commit.Invariant.{remove_path-Keeps}
use hamsterd.Cache.Load.{end_refresh}
use hamsterd.Cache.Load.Invariant.{load-Keeps}
use hamsterd.Cache.Capture.{CapturingBody, CaptureFaults, capture}
use hamsterd.Cache.Capture.Pending.{IsSound, Moves, read-Moves, close-Moves}
use hamsterd.Cache.Capture.Steps.{
  System, sum_written, Step, starts, fails_to_start, reads, closes, loads, ends_refresh, Reach,
  here, next, IsSafe,
}

written-le-sum :
    (bs : List CapturingBody) (i : ℕ) (b : CapturingBody)
    → get_elem? bs i ≡ some b
    → b.written ≤ sum_written bs
unfolding sum_written
written-le-sum [] i b h = absurd (ground arith)
written-le-sum (x ∷ bs) zero b h = ground arith
written-le-sum (x ∷ bs) (suc i) b h = omega (arith, written-le-sum bs i b h)

sum_written-set :
    (bs : List CapturingBody) (i : ℕ) (b b' : CapturingBody)
    → get_elem? bs i ≡ some b
    → sum_written (set bs i b') + b.written ≡ sum_written bs + b'.written
unfolding sum_written
sum_written-set [] i b b' h = absurd (ground arith)
sum_written-set (x ∷ bs) zero b b' h = ground arith
sum_written-set (x ∷ bs) (suc i) b b' h = omega (arith, sum_written-set bs i b b' h)

sum_written-append :
    (bs : List CapturingBody) (b : CapturingBody)
    → sum_written (bs ++ b ∷ []) ≡ sum_written bs + b.written
unfolding sum_written
sum_written-append [] b = omega arith
sum_written-append (x ∷ bs) b = omega (arith, sum_written-append bs b)

module _ {ℓ} {A : Type 0} (P : A → Type ℓ) where
  All-set : (xs : List A) (i : ℕ) (v : A) → All P xs → P v → All P (set xs i v)
  All-set [] i v h p = tt
  All-set (x ∷ xs) zero v h p = (p, h.1)
  All-set (x ∷ xs) (suc i) v h p = (h.0, All-set xs i v h.1 p)

  All-get : (xs : List A) (i : ℕ) (v : A) → All P xs → get_elem? xs i ≡ some v → P v
  All-get [] i v h e = absurd (cc)
  All-get (x ∷ xs) zero v h e = let q : x ≡ v = cc in subst P q h.0
  All-get (x ∷ xs) (suc i) v h e = All-get xs i v h.1 e

IsSound-store :
    (s s' : Store) (bs : List CapturingBody)
    → s'.max_object_bytes ≡ s.max_object_bytes
    → All (λ b. IsSound b s) bs
    → All (λ b. IsSound b s') bs
IsSound-store s s' bs e h =
    All-imp (λ b. IsSound b s) (λ b. IsSound b s') bs
      (λ b k. record { over = k.over; small = rw e k.small }) h

-- One download moves and the others stay.
moved-IsSafe :
    (t : System) (i : ℕ) (b b' : CapturingBody) (s : Store)
    → IsSafe t
    → get_elem? t.bodies i ≡ some b
    → Moves b t.store b' s
    → IsSafe (record { store = s; bodies = set t.bodies i b' })
moved-IsSafe t i b b' s v at m = record {
  counted = omega (arith, sum_written-set t.bodies i b b' at, m.balance, v.counted);
  within = m.within;
  sound =
      All-set (λ x. IsSound x s) t.bodies i b'
        (IsSound-store t.store s t.bodies m.max_object_bytes v.sound) m.sound;
  bounded = m.bounded v.bounded;
}

-- The store moves and `pending` stays.
kept-IsSafe :
    (t : System) (s : Store)
    → IsSafe t
    → Keeps t.store s
    → IsSafe (record { store = s; bodies = t.bodies })
kept-IsSafe t s v k = record {
  counted = k.frame.pending ∙ v.counted;
  within = rw (k.frame.pending, k.frame.max_bytes) v.within;
  sound = IsSound-store t.store s t.bodies k.frame.max_object_bytes v.sound;
  bounded = k.bounded v.bounded;
}

abbrev StartsEmpty : Option CapturingBody → Type 0
StartsEmpty none = Unit
StartsEmpty (some b) = b.written ≡ 0

pub capture-Keeps :
    (faults : CaptureFaults) (now : Time) (key : Text) (meta : Metadata) (s : Store)
    → Keeps s (capture faults now key meta s).0 × StartsEmpty (capture faults now key meta s).1
unfolding capture
capture-Keeps faults now key meta s =
    let P = λ (r : Store × Option CapturingBody). Keeps s r.0 × StartsEmpty r.1 in
    if_cases P (not faults.create) (λ _. (Keeps-refl s, tt))
      λ _.
        if_cases P (not faults.chmod)
          (λ _. (Keeps-trans (Keeps-disk s _ _) (remove_path-Keeps faults.removes _ _), tt))
          λ _. (Keeps-disk s _ _, refl)

end_refresh-Keeps : (key : Text) (s : Store) → Keeps s (end_refresh key s)
unfolding end_refresh
end_refresh-Keeps key s = record {
  frame = record { max_bytes = refl; max_object_bytes = refl; pending = refl };
  bounded = IsBounded-rest s s.disk s.next_temporary s.pending _;
}

started-IsSafe :
    (t : System) (s : Store) (b : CapturingBody)
    → IsSafe t
    → Keeps t.store s
    → b.written ≡ 0
    → IsSafe (record { store = s; bodies = t.bodies ++ b ∷ [] })
started-IsSafe t s b v k empty =
    let kept = kept-IsSafe t s v k in
    record {
      counted = omega (arith, kept.counted, sum_written-append t.bodies b, empty);
      within = kept.within;
      sound =
          All-append (λ x. IsSound x s) t.bodies (b ∷ []) kept.sound
            (record { over = λ _. empty; small = omega (arith, empty) }, tt);
      bounded = kept.bounded;
    }

module _ (codec : Codec) where
  pub Step-IsSafe : {t u : System} → Step codec t u → IsSafe t → IsSafe u
  Step-IsSafe {t} {u} (starts faults now key meta b s e eu) v =
      let (k, empty) = capture-Keeps faults now key meta t.store in
      subst IsSafe (sym eu) (started-IsSafe t s b v (rw e at k) (rw e at empty))
  Step-IsSafe {t} {u} (fails_to_start faults now key meta s e eu) v =
      let (k, _) = capture-Keeps faults now key meta t.store in
      subst IsSafe (sym eu) (kept-IsSafe t s v (rw e at k))
  Step-IsSafe {t} {u} (reads faults now chunk eof i b at eu) v = subst IsSafe (sym eu) (
      moved-IsSafe t i b _ _ v at (
        read-Moves codec faults now chunk eof b t.store
          (All-get (λ x. IsSound x t.store) t.bodies i b v.sound at)
          (omega (arith, written-le-sum t.bodies i b at, v.counted)) v.within))
  Step-IsSafe {t} {u} (closes removes i b at eu) v = subst IsSafe (sym eu) (
      moved-IsSafe t i b _ _ v at (
        close-Moves b t.store (All-get (λ x. IsSound x t.store) t.bodies i b v.sound at)
          (omega (arith, written-le-sum t.bodies i b at, v.counted)) v.within removes))
  Step-IsSafe {t} {u} (loads faults now key eu) v =
      subst IsSafe (sym eu) (kept-IsSafe t _ v (load-Keeps codec faults now key t.store))
  Step-IsSafe {t} {u} (ends_refresh key eu) v =
      subst IsSafe (sym eu) (kept-IsSafe t _ v (end_refresh-Keeps key t.store))

  -- In every state that an interleaving of starts, reads, closes, loads and ends of refreshes
  -- leads to from a safe state, whatever the system and the sources answer, `pending` is the sum of
  -- the bytes written by the downloads in progress and at most `maxBytes`, no download holds more
  -- than `maxObjectBytes`, the index and the map of the store agree, and `total` is the sum of the
  -- sizes of the entries and at most `maxBytes`.
  pub Reach-IsSafe : {s t : System} → IsSafe s → Reach codec s t → IsSafe t
  Reach-IsSafe h here = h
  Reach-IsSafe h (next r st) = Step-IsSafe st (Reach-IsSafe h r)

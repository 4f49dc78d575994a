-- ===== src/Lemming/Recent/Window.antt =====
-- The ring of internal/lemming/service.go holds the last 200 requests, in order.
use Prim.Native.Nat.{min}
use hamsterd.Common.{
  ℕ, zero, suc, ◌+◌, ◌-◌, ◌%◌, ◌≤◌, ◌<◌, ◌≡◌, refl, ◌∙◌, sym, ap, List, [], ◌∷◌, ◌++◌, ltb, length,
  take, drop, set, if◌then◌else◌, ◌&&◌, arith, Bool-cases, inl, inr, length-append, ltb→lt, ltb→le,
  lt→ltb, le→ltb, subst,
}
use mathlib.Core.List.{reverse, append-nil, append_assoc}
use hamsterd.Lemming.Recent.{RequestView, recent_requests, Ring, record_request, ordered, recent}

module _ {A : Type 0} where
  drop-set : (xs : List A) (n : ℕ) (x : A) → drop (suc n) (set xs n x) ≡ drop (suc n) xs
  drop-set [] n x = refl
  drop-set (y ∷ xs) zero x = refl
  drop-set (y ∷ xs) (suc n) x = drop-set xs n x

  take-set :
      (xs : List A) (n : ℕ) (x : A)
      → n < length xs
      → take (suc n) (set xs n x) ≡ take n xs ++ x ∷ []
  take-set [] n x h = absurd (omega arith)
  take-set (y ∷ xs) zero x h = refl
  take-set (y ∷ xs) (suc n) x h = ap (◌∷◌ y) (take-set xs n x (omega arith))

  drop-all : (xs : List A) (n : ℕ) → length xs ≤ n → drop n xs ≡ []
  drop-all [] zero h = refl
  drop-all [] (suc n) h = refl
  drop-all (x ∷ xs) zero h = absurd (omega arith)
  drop-all (x ∷ xs) (suc n) h = drop-all xs n (omega arith)

  take-all : (xs : List A) (n : ℕ) → length xs ≤ n → take n xs ≡ xs
  take-all [] zero h = refl
  take-all [] (suc n) h = refl
  take-all (x ∷ xs) zero h = absurd (omega arith)
  take-all (x ∷ xs) (suc n) h = ap (◌∷◌ x) (take-all xs n (omega arith))

  drop_one-drop :
      (xs ys : List A) (n : ℕ) → n < length xs → drop 1 (drop n xs ++ ys) ≡ drop (suc n) xs ++ ys
  drop_one-drop [] ys n h = absurd (omega arith)
  drop_one-drop (x ∷ xs) ys zero h = refl
  drop_one-drop (x ∷ xs) ys (suc n) h = drop_one-drop xs ys n (omega arith)

  drop-drop : (xs : List A) (n : ℕ) → drop 1 (drop n xs) ≡ drop (suc n) xs
  drop-drop [] zero = refl
  drop-drop [] (suc n) = refl
  drop-drop (x ∷ xs) zero = refl
  drop-drop (x ∷ xs) (suc n) = drop-drop xs n

  drop-snoc :
      (xs : List A) (n : ℕ) (x : A) → n ≤ length xs → drop n (xs ++ x ∷ []) ≡ drop n xs ++ x ∷ []
  drop-snoc xs zero x h = refl
  drop-snoc [] (suc n) x h = absurd (omega arith)
  drop-snoc (y ∷ xs) (suc n) x h = drop-snoc xs n x (omega arith)

  length-set : (xs : List A) (n : ℕ) (x : A) → length (set xs n x) ≡ length xs
  length-set [] n x = refl
  length-set (y ∷ xs) zero x = refl
  length-set (y ∷ xs) (suc n) x = ap suc (length-set xs n x)

pub record IsRing (r : Ring) : Type 0 where
  pub bounded : length r.recent ≤ recent_requests
  pub in_range : r.next < recent_requests
  pub start : length r.recent < recent_requests → r.next ≡ 0

pub record_request-IsRing : (x : RequestView) (r : Ring) → IsRing r → IsRing (record_request x r)
unfolding record_request
record_request-IsRing x r v = elim (Bool-cases (ltb (length r.recent) recent_requests)) [
  | inl room ↦
      rw (room, record_request)
        (record {
          bounded = omega (arith, length-append r.recent (x ∷ []), ltb→lt _ _ room);
          in_range = v.in_range;
          start = λ h. v.start (ltb→lt _ _ room);
        })
  | inr full ↦
      rw (full, record_request)
        (record {
          bounded = omega (arith, length-set r.recent r.next x, v.bounded);
          in_range = omega arith;
          start = λ h. absurd (omega (arith, length-set r.recent r.next x, ltb→le _ _ full));
        })
]

module _ (x : RequestView) (r : Ring) (v : IsRing r) where
  pub ordered-room :
      length r.recent < recent_requests → ordered (record_request x r) ≡ ordered r ++ x ∷ []
  unfolding record_request ordered
  ordered-room h = rw (lt→ltb _ _ h, v.start h) (simp append-nil)

  module _ (full : recent_requests ≤ length r.recent) where
    ordered-full_inside :
        r.next + 1 < recent_requests → ordered (record_request x r) ≡ drop 1 (ordered r) ++ x ∷ []
    unfolding record_request ordered
    ordered-full_inside h =
        let e : (r.next + 1) % recent_requests ≡ suc r.next = omega arith in
        rw (le→ltb _ _ full, e, drop-set, take-set r.recent r.next x (omega arith))
          (rw (drop_one-drop r.recent (take r.next r.recent) r.next (omega arith))
            (sym (append_assoc (drop (suc r.next) r.recent) (take r.next r.recent) (x ∷ []))))

    ordered-full_last :
        r.next + 1 ≡ recent_requests → ordered (record_request x r) ≡ drop 1 (ordered r) ++ x ∷ []
    unfolding record_request ordered
    ordered-full_last h =
        let e : (r.next + 1) % recent_requests ≡ 0 = omega arith in
        let long : length r.recent ≤ suc r.next = omega (arith, v.bounded) in
        let whole : set r.recent r.next x ≡ take r.next r.recent ++ x ∷ [] =
          sym (
            take-all (set r.recent r.next x) (suc r.next)
              (omega (arith, length-set r.recent r.next x)))
          ∙ take-set r.recent r.next x (omega arith) in
        rw (le→ltb _ _ full, e)
          (append-nil (set r.recent r.next x)
            ∙ whole
            ∙ (rw (
              drop_one-drop r.recent (take r.next r.recent) r.next (omega arith),
              drop-all r.recent (suc r.next) long,
            )))

    pub ordered-full : ordered (record_request x r) ≡ drop 1 (ordered r) ++ x ∷ []
    ordered-full = elim (Bool-cases (ltb (r.next + 1) recent_requests)) [
      | inl inside ↦ ordered-full_inside (ltb→lt _ _ inside)
      | inr last ↦ ordered-full_last (omega (arith, ltb→le _ _ last, v.in_range))
    ]

-- The ring after a history of requests.
pub record Tracks (r : Ring) (history : List RequestView) : Type 0 where
  pub valid : IsRing r
  pub size : length r.recent ≡ min recent_requests (length history)
  pub window : ordered r ≡ drop (length history - recent_requests) history

length-record_request :
    (x : RequestView) (r : Ring)
    → IsRing r
    → length (record_request x r).recent ≡ min recent_requests (length r.recent + 1)
unfolding record_request
length-record_request x r v = elim (Bool-cases (ltb (length r.recent) recent_requests)) [
  | inl room ↦
      rw (room, record_request) (omega (arith, length-append r.recent (x ∷ []), ltb→lt _ _ room))
  | inr full ↦
      rw (full, record_request)
        (omega (arith, length-set r.recent r.next x, ltb→le _ _ full, v.bounded))
]

record_request-Tracks :
    (x : RequestView) (r : Ring) (history : List RequestView)
    → Tracks r history
    → Tracks (record_request x r) (history ++ x ∷ [])
record_request-Tracks x r history t = record {
  valid = record_request-IsRing x r t.valid;
  size = omega (arith, length-record_request x r t.valid, t.size, length-append history (x ∷ []));
  window = elim (Bool-cases (ltb (length r.recent) recent_requests)) [
    | inl room ↦
        let h = ltb→lt _ _ room in
        let few : length history - recent_requests ≡ 0 = omega (arith, t.size) in
        let few' : length (history ++ x ∷ []) - recent_requests ≡ 0 =
          omega (arith, t.size, length-append history (x ∷ [])) in
        ordered-room x r t.valid h ∙ (rw (t.window, few, few'))
    | inr full ↦
        let h = ltb→le _ _ full in
        let n = length history - recent_requests in
        let next : length (history ++ x ∷ []) - recent_requests ≡ suc n =
          omega (arith, t.size, length-append history (x ∷ [])) in
        ordered-full x r t.valid h
        ∙ ap (λ l. drop 1 l ++ x ∷ []) t.window
        ∙ (rw (next, drop-drop) (sym (drop-snoc history (suc n) x (omega (arith, t.size)))))
  ];
}

unfoldable pub record_all : List RequestView → Ring → Ring
record_all [] r = r
record_all (x ∷ xs) r = record_all xs (record_request x r)

record_all-Tracks :
    (xs : List RequestView) (r : Ring) (history : List RequestView)
    → Tracks r history
    → Tracks (record_all xs r) (history ++ xs)
unfolding record_all
record_all-Tracks [] r history t = rw append-nil t
record_all-Tracks (x ∷ xs) r history t =
    subst (Tracks (record_all xs (record_request x r))) (append_assoc history (x ∷ []) xs) (
      record_all-Tracks xs (record_request x r) (history ++ x ∷ [])
        (record_request-Tracks x r history t))

abbrev pub no_requests : Ring
no_requests = record { recent = []; next = 0 }

no_requests-window : ordered no_requests ≡ drop 0 []
unfolding ordered
no_requests-window = refl

-- After any sequence of recorded requests `Recent` answers the newest first: all of the last 200,
-- or as many of them as a positive limit below that number says.
pub recent-record_all :
    (history : List RequestView) (limit : ℕ)
    → recent limit (record_all history no_requests) ≡ (
        let window = reverse (drop (length history - recent_requests) history) in
        if ltb 0 limit && ltb limit (length window) then take limit window else window)
unfolding recent
recent-record_all history limit =
    let start : Tracks no_requests [] = record {
      valid = record { bounded = omega arith; in_range = omega arith; start = λ _. refl };
      size = omega arith;
      window = no_requests-window;
    } in
    let t = record_all-Tracks history no_requests [] start in rw t.window

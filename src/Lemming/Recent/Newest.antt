-- ===== src/Lemming/Recent/Newest.antt =====
-- The newest of the requests that internal/lemming/service.go keeps.
use hamsterd.Common.{
  ◌≡◌, refl, List, [], ◌∷◌, ◌++◌, ltb, ◌&&◌, length, take, drop, arith, Bool-cases, inl, inr,
  if◌then◌else◌, ltb→lt, ltb→le,
}
use hamsterd.Lemming.Recent.{RequestView, Ring, recent_requests, record_request, ordered, recent}
use hamsterd.Lemming.Recent.Window.{IsRing, ordered-room, ordered-full}
use mathlib.Core.List.{reverse, reverse-append}

newest_of :
    (x : RequestView) (l : List RequestView)
    → (if ltb 0 1 && ltb 1 (length (x ∷ l)) then take 1 (x ∷ l) else x ∷ l) ≡ x ∷ []
newest_of x [] = refl
newest_of x (y ∷ l) = ground arith

recent-snoc :
    (x : RequestView) (l : List RequestView) (r : Ring)
    → ordered r ≡ l ++ (x ∷ [])
    → recent 1 r ≡ x ∷ []
unfolding recent
recent-snoc x l r e = rw (recent, e, reverse-append l (x ∷ [])) (newest_of x (reverse l))

pub recent-record_request :
    (x : RequestView) (r : Ring) → IsRing r → recent 1 (record_request x r) ≡ x ∷ []
recent-record_request x r v = elim (Bool-cases (ltb (length r.recent) recent_requests)) [
  | inl room ↦ recent-snoc x (ordered r) (record_request x r) (ordered-room x r v (ltb→lt _ _ room))
  | inr full ↦
      recent-snoc x (drop 1 (ordered r)) (record_request x r) (ordered-full x r v (ltb→le _ _ full))
]

-- ===== src/Proxycore/Listener/Slots.antt =====
-- How many connections the listener of internal/proxycore/listener.go has open at a time.
use hamsterd.Common.{
  ℕ, zero, suc, ◌+◌, ◌≤◌, ◌<◌, ◌≡◌, refl, sym, subst, Bool, true, false, some, List, [], ◌∷◌, ◌++◌,
  if◌then◌else◌, get_elem?, set, arith, Option-cases, inl, inr,
}
use hamsterd.Proxycore.Listener.{
  Listener, new_listener, take_slot, end_accept, close_conn, close_listener, Step, takes_slot,
  gives_up, ends_accept, closes_conn, closes, Reach, here, next,
}

-- The connections that have not released their slot.
unfoldable pub open_conns : List Bool → ℕ
open_conns [] = 0
open_conns (released ∷ conns) = if released then open_conns conns else suc (open_conns conns)

open_conns-append : (conns : List Bool) → open_conns (conns ++ false ∷ []) ≡ suc (open_conns conns)
unfolding open_conns
open_conns-append [] = refl
open_conns-append (true ∷ conns) = open_conns-append conns
open_conns-append (false ∷ conns) = omega (arith, open_conns-append conns)

open_conns-set :
    (conns : List Bool) (i : ℕ)
    → get_elem? conns i ≡ some false
    → suc (open_conns (set conns i true)) ≡ open_conns conns
unfolding open_conns
open_conns-set [] i h = absurd (cc)
open_conns-set (released ∷ conns) zero h = ground arith
open_conns-set (released ∷ conns) (suc i) h = ground (arith, open_conns-set conns i)

pub record IsCounted (l : Listener) : Type 0 where
  pub counted : l.slots ≡ l.accepting + open_conns l.conns
  pub within : l.slots ≤ l.limit

-- The invariant after a step that leaves the limit alone.
abbrev Stays : Listener → Listener → Type 0
Stays l m = IsCounted m × (m.limit ≡ l.limit)

close_conn-Stays : (i : ℕ) (l : Listener) → IsCounted l → Stays l (close_conn i l)
unfolding close_conn
close_conn-Stays i l v = elim (Option-cases (get_elem? l.conns i)) [
  | inl outside ↦ rw (outside, close_conn) (v, refl)
  | inr (true, again) ↦ rw (again, close_conn) (v, refl)
  | inr (false, first) ↦
      rw (first, close_conn)
        (
          record {
            counted = omega (arith, open_conns-set l.conns i first, v.counted);
            within = omega (arith, v.within);
          },
          refl,
        )
]

end_accept-Stays :
    (connected : Bool) (l : Listener) (n : ℕ)
    → l.accepting ≡ suc n
    → IsCounted l
    → Stays l (end_accept connected l)
unfolding end_accept
end_accept-Stays true l n a v = (
  record { counted = omega (arith, open_conns-append l.conns, v.counted, a); within = v.within },
  refl,
)
end_accept-Stays false l n a v =
    (record { counted = omega (arith, v.counted, a); within = omega (arith, v.within) }, refl)

take_slot-Stays : (l m : Listener) → take_slot l ≡ some m → IsCounted l → Stays l m
unfolding take_slot
take_slot-Stays l m e v =
    (record { counted = ground (arith, v.counted); within = ground arith }, ground arith)

Step-Stays : {l m : Listener} → Step l m → IsCounted l → Stays l m
unfolding close_listener
Step-Stays {l} {m} (takes_slot e) v = take_slot-Stays l m e v
Step-Stays {l} {m} (gives_up c e) v = subst (Stays l) (sym e) (v, refl)
Step-Stays {l} {m} (ends_accept connected n a e) v =
    subst (Stays l) (sym e) (end_accept-Stays connected l n a v)
Step-Stays {l} {m} (closes_conn i e) v = subst (Stays l) (sym e) (close_conn-Stays i l v)
Step-Stays {l} {m} (closes e) v =
    subst (Stays l) (sym e) (record { counted = v.counted; within = v.within }, refl)

Reach-Stays :
    (limit : ℕ) {l : Listener} → Reach (new_listener limit) l → Stays (new_listener limit) l
unfolding open_conns
Reach-Stays limit here = (record { counted = refl; within = omega arith }, refl)
Reach-Stays limit (next r st) =
    let (v, same) = Reach-Stays limit r in
    let (v', same') = Step-Stays st v in (v', omega (arith, same, same'))

-- In every interleaving of accepts, closes of connections and the close of the listener, from a new
-- listener on, the slots in use are those of the accepts under way and of the open connections, and
-- these together are at most `limit`.
pub Reach-IsCounted :
    (limit : ℕ) {l : Listener}
    → Reach (new_listener limit) l
    → (l.slots ≡ l.accepting + open_conns l.conns) × (l.accepting + open_conns l.conns ≤ limit)
Reach-IsCounted limit r =
    let (v, same) = Reach-Stays limit r in (v.counted, omega (arith, v.counted, v.within, same))

-- In every state that a new listener reaches, if the accepts under way and the open connections are
-- together fewer than `limit`, then a call of `Accept` gets a slot at once.
pub take_slot_free :
    (limit : ℕ) {l : Listener}
    → Reach (new_listener limit) l
    → l.accepting + open_conns l.conns < limit
    → take_slot l ≡ some (record l { slots = l.slots + 1; accepting = l.accepting + 1 })
unfolding take_slot
take_slot_free limit {l} r free =
    let (v, same) = Reach-Stays limit r in ground (arith, v.counted, same, free)

-- ===== src/Proxycore/Listener.antt =====
-- `limitListener` of internal/proxycore/listener.go, with the connections that it has accepted.
pub mod Slots
use hamsterd.Common.{
  ℕ, suc, ◌+◌, ◌-◌, ◌≡◌, Bool, true, false, Option, none, some, List, [], ◌∷◌, ◌++◌, ltb,
  if◌then◌else◌, get_elem?, set,
}

-- `slots` is the number of values in the channel. A connection is `true` once it has released its
-- slot. `accepting` counts the calls of `Accept` that hold a slot and wait for a connection.
pub record Listener : Type 0 where
  pub limit : ℕ
  pub slots : ℕ
  pub closed : Bool
  pub accepting : ℕ
  pub conns : List Bool

abbrev pub new_listener : ℕ → Listener
new_listener limit = record { limit = limit; slots = 0; closed = false; accepting = 0; conns = [] }

-- The send in `Accept`; `none` means that it waits.
unfoldable pub take_slot : Listener → Option Listener
take_slot l =
    if ltb l.slots l.limit
    then some (record l { slots = l.slots + 1; accepting = l.accepting + 1 })
    else none

-- The end of `Accept`, with a connection or with an error of the listener below.
unfoldable pub end_accept : Bool → Listener → Listener
end_accept connected l =
    if connected
    then record l { accepting = l.accepting - 1; conns = l.conns ++ false ∷ [] }
    else record l { accepting = l.accepting - 1; slots = l.slots - 1 }

-- `Close` of a connection, whose `releaseOnce` gives its slot back once.
unfoldable pub close_conn : ℕ → Listener → Listener
close_conn i l = elim (get_elem? l.conns i) [
  | none ↦ l
  | some released ↦
      if released then l else record l { slots = l.slots - 1; conns = set l.conns i true }
]

unfoldable pub close_listener : Listener → Listener
close_listener l = record l { closed = true }

pub data Step (l m : Listener) : Type 0 where
  takes_slot : take_slot l ≡ some m → Step l m
  -- `Accept` of a closed listener may also give up at once
  gives_up : l.closed ≡ true → m ≡ l → Step l m
  ends_accept :
      (connected : Bool) (n : ℕ) → l.accepting ≡ suc n → m ≡ end_accept connected l → Step l m
  closes_conn : (i : ℕ) → m ≡ close_conn i l → Step l m
  closes : m ≡ close_listener l → Step l m

pub data Reach (l : Listener) : Listener → Type 0 where
  here : Reach l l
  next : {m n : Listener} → Reach l m → Step m n → Reach l n

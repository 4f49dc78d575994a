-- ===== src/Lemming/Recent.antt =====
-- `Record` and `Recent` of internal/lemming/service.go: the ring of recent requests.
pub mod Window
pub mod Newest
use hamsterd.Common.{
  ℕ, zero, suc, ◌+◌, ◌-◌, ◌%◌, ◌≤◌, ◌<◌, ◌≡◌, refl, ◌∙◌, sym, ap, Bool, true, false, List, [], ◌∷◌,
  ◌++◌, ltb, length, take, drop, set, if◌then◌else◌, ◌&&◌, arith, Bool-cases, inl, inr, Text,
  length-append, ltb→lt, ltb→le,
}
use mathlib.Core.List.{reverse}
use hamsterd.Common.Clock.{Time}

pub record RequestView : Type 0 where
  pub time : Time
  pub method : Text
  pub host : Text
  pub path : Text
  pub target : Text
  pub status : ℕ
  pub error : Text

abbrev pub recent_requests : ℕ
recent_requests = 200

-- The fields that `recentMu` guards.
pub record Ring : Type 0 where
  pub recent : List RequestView
  pub next : ℕ

unfoldable pub record_request : RequestView → Ring → Ring
record_request request r =
    if ltb (length r.recent) recent_requests
    then record r { recent = r.recent ++ request ∷ [] }
    else record r { recent = set r.recent r.next request; next = (r.next + 1) % recent_requests }

-- From the oldest to the newest.
unfoldable pub ordered : Ring → List RequestView
ordered r = drop r.next r.recent ++ take r.next r.recent

-- `Recent`, where a limit of 0 stands for one that is not positive.
unfoldable pub recent : ℕ → Ring → List RequestView
recent limit r =
    let newest_first = reverse (ordered r) in
    if ltb 0 limit && ltb limit (length newest_first) then take limit newest_first else newest_first

-- ===== src/Cache/Capture/Steps.antt =====
-- Any number of downloads over one store of internal/cache/cache.go, interleaved with loads and
-- refreshes: each step is one call under the store's lock or one `Read` or `Close` of a download.
use hamsterd.Common.{
  ℕ, ◌+◌, ◌≤◌, ◌≡◌, Bool, none, some, List, [], ◌∷◌, ◌++◌, Text, get_elem?, set, All,
}
use hamsterd.Common.Clock.{Time}
use hamsterd.Cache.Disk.{Removes}
use hamsterd.Cache.Metadata.{Metadata, Codec}
use hamsterd.Cache.Store.{Store}
use hamsterd.Cache.Store.Keeps.{IsBounded}
use hamsterd.Cache.Load.{LoadFaults, load, end_refresh}
use hamsterd.Cache.Capture.{CapturingBody, CaptureFaults, capture, ReadFaults, read, close}
use hamsterd.Cache.Capture.Pending.{IsSound}

pub record System : Type 0 where
  pub store : Store
  pub bodies : List CapturingBody

unfoldable pub sum_written : List CapturingBody → ℕ
sum_written [] = 0
sum_written (b ∷ bs) = b.written + sum_written bs

module _ (codec : Codec) where
  pub data Step (t u : System) : Type 0 where
    starts :
        (faults : CaptureFaults) (now : Time) (key : Text) (meta : Metadata) (b : CapturingBody)
        (s : Store)
        → capture faults now key meta t.store ≡ (s, some b)
        → u ≡ record { store = s; bodies = t.bodies ++ b ∷ [] }
        → Step t u
    fails_to_start :
        (faults : CaptureFaults) (now : Time) (key : Text) (meta : Metadata) (s : Store)
        → capture faults now key meta t.store ≡ (s, none)
        → u ≡ record { store = s; bodies = t.bodies }
        → Step t u
    reads :
        (faults : ReadFaults) (now : Time) (chunk : Text) (eof : Bool) (i : ℕ) (b : CapturingBody)
        → get_elem? t.bodies i ≡ some b
        → u ≡ record {
          store = (read codec faults now chunk eof b t.store).1;
          bodies = set t.bodies i (read codec faults now chunk eof b t.store).0;
        }
        → Step t u
    closes :
        (removes : Removes) (i : ℕ) (b : CapturingBody)
        → get_elem? t.bodies i ≡ some b
        → u ≡ record {
          store = (close removes b t.store).1;
          bodies = set t.bodies i (close removes b t.store).0;
        }
        → Step t u
    loads :
        (faults : LoadFaults) (now : Time) (key : Text)
        → u ≡ record { store = (load codec faults now key t.store).0; bodies = t.bodies }
        → Step t u
    ends_refresh :
        (key : Text) → u ≡ record { store = end_refresh key t.store; bodies = t.bodies } → Step t u

  pub data Reach (s : System) : System → Type 0 where
    here : Reach s s
    next : {t u : System} → Reach s t → Step t u → Reach s u

pub record IsSafe (t : System) : Type 0 where
  -- `pending` counts the bytes of the downloads in progress
  pub counted : t.store.pending ≡ sum_written t.bodies
  pub within : t.store.pending ≤ t.store.max_bytes
  pub sound : All (λ b. IsSound b t.store) t.bodies
  pub bounded : IsBounded t.store

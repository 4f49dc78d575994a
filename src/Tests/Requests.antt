-- ===== src/Tests/Requests.antt =====
-- A run of the ring of recent requests of internal/lemming.
use hamsterd.Common.{ℕ, ◌-◌, ◌≡◌, [], ◌∷◌, codes, ltb, ◌&&◌, if◌then◌else◌, length, take, drop}
use mathlib.Core.List.{reverse}
use hamsterd.Common.Int.{pos}
use hamsterd.Lemming.Recent.{RequestView, recent, recent_requests}
use hamsterd.Lemming.Recent.Window.{record_all, no_requests, recent-record_all}

abbrev view : ℕ → RequestView
view status = record {
  time = pos 0;
  method = codes "GET";
  host = codes "mirror.example.com";
  path = codes "/pub/a";
  target = codes "127.0.0.1:9000";
  status = status;
  error = [];
}

recent-record_all_example :
    recent 2 (record_all (view 200 ∷ view 404 ∷ view 502 ∷ []) no_requests) ≡ (
      let window = reverse (
        drop
          (length (view 200 ∷ view 404 ∷ view 502 ∷ []) - recent_requests)
          (view 200 ∷ view 404 ∷ view 502 ∷ [])) in
      if ltb 0 2 && ltb 2 (length window) then take 2 window else window)
recent-record_all_example = recent-record_all (view 200 ∷ view 404 ∷ view 502 ∷ []) 2

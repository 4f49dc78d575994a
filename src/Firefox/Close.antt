-- ===== src/Firefox/Close.antt =====
-- `Browser.Close` of internal/firefox/firefox.go.
use hamsterd.Common.{Bool, true, false, not, ◌||◌, ◌&&◌, if◌then◌else◌}
use hamsterd.Firefox.Launch.{Kill, killed, process_done, not_killed}

-- What `Browser.Close` meets: whether Firefox runs, whether the quit request succeeds, whether
-- Firefox is gone in time behind it, the answer to the kill, and whether it is gone in time then.
pub record CloseFaults : Type 0 where
  pub running : Bool
  pub quits : Bool
  pub released : Bool
  pub kill : Kill
  pub released_late : Bool

-- The error of `Close`: of the request, of the kill, of the wait, or of two.
pub data CloseError : Type 0 where
  no_error quit_failed : CloseError
  stop_failed : Bool → CloseError
  did_not_stop : Bool → CloseError

abbrev close_killed : Bool → Bool → CloseError
close_killed released quits =
    if released then if quits then no_error else quit_failed else did_not_stop (not quits)

-- `Browser.Close`: whether Firefox was stopped, and the error.
unfoldable pub close_browser : CloseFaults → Bool × CloseError
close_browser faults =
    if not faults.running || (faults.quits && faults.released)
    then (false, no_error)
    else elim faults.kill [
      | killed ↦ (true, close_killed faults.released_late faults.quits)
      | process_done ↦ (true, close_killed faults.released_late faults.quits)
      | not_killed ↦ (true, stop_failed (not faults.quits))
    ]

-- Whether `Browser.Close` returns because the channel `released` is closed, or finds it closed: then
-- Firefox has exited.
unfoldable pub is_released : CloseFaults → Bool
is_released faults =
    if not faults.running || (faults.quits && faults.released) then true else elim faults.kill [
      | killed ↦ faults.released_late
      | process_done ↦ faults.released_late
      | not_killed ↦ false
    ]

-- ===== src/Cmd/Lemmingd/Start/Stopped.antt =====
-- How a lemmingd with a Firefox of cmd/lemmingd/main.go ends.
use hamsterd.Common.{◌≡◌, ◌⊎◌, Bool, true, false, Option, none, some}
use hamsterd.Common.Int.{ℤ}
use hamsterd.Proxycore.Serve.{HttpServer}
use hamsterd.Firefox.Lease.{Profile}
use hamsterd.Firefox.Close.{no_error, quit_failed, stop_failed, did_not_stop}
use hamsterd.Firefox.Launch.Left.{IsLeft}
use hamsterd.Cmd.Lemmingd.Start.{
  Served, ClosingLog, not_running, closed_firefox, stopped_firefox, close_warning,
}

-- No server, or one that has stopped.
abbrev pub IsStopped : Option HttpServer → Type 0
IsStopped none = Unit
IsStopped (some s) = (s.listening ≡ false) × (s.serving ≡ false)

-- Whether the log tells that Firefox could not be stopped.
abbrev pub unstopped : ClosingLog → Bool
unstopped not_running = false
unstopped closed_firefox = false
unstopped stopped_firefox = false
unstopped (close_warning no_error) = false
unstopped (close_warning quit_failed) = false
unstopped (close_warning (stop_failed both)) = true
unstopped (close_warning (did_not_stop both)) = true

-- What is left of a Firefox that was launched.
abbrev pub IsClosed : Profile → ClosingLog → Type 0
IsClosed p log =
    ((p.process ≡ none) × (unstopped log ≡ false))
    ⊎ ((pid : ℤ) × (p.process ≡ some pid) × (unstopped log ≡ true))

-- Firefox was launched and is closed, or none is left and the exit code is 1.
abbrev pub IsEnded : Profile → Served → Type 0
IsEnded p r =
    ((log : ClosingLog) × (r.closed ≡ some log) × IsClosed r.profile log)
    ⊎ (IsLeft p r.profile × (r.closed ≡ none) × (r.code ≡ 1))

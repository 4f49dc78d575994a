-- ===== src/Proxycore/Serve.antt =====
-- `ServeAfterListen` and `stopServer` of internal/proxycore/proxy.go.
use hamsterd.Common.{◌*◌, Bool, true, false, Option, none, some, not, ◌||◌, if◌then◌else◌}
use hamsterd.Common.Clock.{Duration, second}
use hamsterd.Common.Int.{pos}
use hamsterd.Proxycore.Guard.{Options}

abbrev pub remote_tunnel_idle_timeout : Duration
remote_tunnel_idle_timeout = pos (900 * second)

-- How http.Server.Serve ends: with http.ErrServerClosed, or with another error.
pub data ServeEnd : Type 0 where
  server_closed serve_failed : ServeEnd

-- The server of one call: whether its listener is open and whether `Serve` still runs.
pub record HttpServer : Type 0 where
  pub listening : Bool
  pub serving : Bool
  pub tunnel_idle : Option Duration

-- What the system answers: net.Listen, what `onReady` answers if there is one, whether `Serve` ends
-- before the context is done, how it ends, http.Server.Shutdown and http.Server.Close.
pub record ServeFaults : Type 0 where
  pub listen : Bool
  pub on_ready : Option Bool
  pub ends_first : Bool
  pub end : ServeEnd
  pub shutdown : Bool
  pub close : Bool

-- What the call returns: no error, or the errors that are joined.
pub record ServeResult : Type 0 where
  pub listen_failed : Bool
  pub ready_failed : Bool
  pub shutdown_failed : Bool
  pub close_failed : Bool
  pub serve_failed : Bool

abbrev pub no_errors : ServeResult
no_errors = record {
  listen_failed = false;
  ready_failed = false;
  shutdown_failed = false;
  close_failed = false;
  serve_failed = false;
}

unfoldable pub is_failure : ServeEnd → Bool
is_failure server_closed = false
is_failure serve_failed = true

unfoldable pub new_server : Options → HttpServer
new_server options = record {
  listening = true;
  serving = true;
  tunnel_idle = if options.remote_clients then some remote_tunnel_idle_timeout else none;
}

-- A server whose `Serve` has returned: it closes its listener before.
unfoldable pub ended : HttpServer → HttpServer
ended s = record s { listening = false; serving = false }

-- http.Server.Shutdown and Close: both close the listener first, whatever they answer.
unfoldable pub close_listener : HttpServer → HttpServer
close_listener s = record s { listening = false }

-- The receive from the channel of `Serve`, which returns once its listener is closed.
unfoldable pub await_served : HttpServer → HttpServer
await_served s = record s { serving = false }

-- `stopServer`, which waits until `Serve` has returned.
unfoldable pub stop_server : ServeFaults → HttpServer → HttpServer × ServeResult
stop_server faults s = (
  await_served (close_listener s),
  record no_errors {
    shutdown_failed = not faults.shutdown;
    close_failed = not (faults.shutdown || faults.close);
    serve_failed = is_failure faults.end;
  },
)

-- The select at the end of `ServeAfterListen`.
unfoldable pub wait_served : ServeFaults → HttpServer → HttpServer × ServeResult
wait_served faults s =
    if faults.ends_first
    then (ended s, record no_errors { serve_failed = is_failure faults.end })
    else stop_server faults s

abbrev after_ready : ServeFaults → HttpServer → Option Bool → HttpServer × ServeResult
after_ready faults s none = wait_served faults s
after_ready faults s (some ready) =
    if ready
    then wait_served faults s
    else let (stopped, result) = stop_server faults s in
      (stopped, record result { ready_failed = true })

-- `ServeAfterListen`: the server, if there is one, and the errors.
unfoldable pub serve_after_listen : ServeFaults → Options → Option HttpServer × ServeResult
serve_after_listen faults options =
    if not faults.listen
    then (none, record no_errors { listen_failed = true })
    else let (s, result) = after_ready faults (new_server options) faults.on_ready in
      (some s, result)

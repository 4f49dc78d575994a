-- ===== src/Proxycore/Deadlines.antt =====
-- The deadlines of `trackedConn` in internal/proxycore/listener.go.
pub mod Idle
use hamsterd.Common.{◌≡◌, Bool, true, false, not, ◌&&◌, ◌||◌, if◌then◌else◌}
use hamsterd.Common.Int.{pos, ltb_ℤ, ◌+ℤ◌}
use hamsterd.Common.Clock.{
  Time, Duration, zero_time, is_zero_time, before, add_time, sub_time, second,
}

-- The fields behind the mutex, with the deadlines of the connection below. The zero time stands for
-- no deadline.
pub record TrackedConn : Type 0 where
  pub idle : Duration
  pub idle_enabled : Bool
  pub refreshed : Time
  pub read_deadline : Time
  pub write_deadline : Time
  pub applied_read : Time
  pub applied_write : Time

unfoldable pub new_conn : Duration → TrackedConn
new_conn idle = record {
  idle = idle;
  idle_enabled = false;
  refreshed = zero_time;
  read_deadline = zero_time;
  write_deadline = zero_time;
  applied_read = zero_time;
  applied_write = zero_time;
}

-- Whether the connection below accepts its two deadlines.
pub record SetFaults : Type 0 where
  pub set_read : Bool
  pub set_write : Bool

unfoldable pub earliest : Time → Time → Time
earliest deadline limit = if is_zero_time deadline || before limit deadline then limit else deadline

-- The two calls at the end, and whether there was no error.
unfoldable pub apply_deadlines : SetFaults → Time → Time → TrackedConn → TrackedConn × Bool
apply_deadlines faults read write c =
    if not faults.set_read
    then (c, false)
    else if not faults.set_write
    then (record c { applied_read = read }, false)
    else (record c { applied_read = read; applied_write = write }, true)

unfoldable pub apply_locked : SetFaults → Time → TrackedConn → TrackedConn × Bool
apply_locked faults now c =
    let limit = add_time now c.idle in
    if c.idle_enabled
    then apply_deadlines faults (earliest c.read_deadline limit) (earliest c.write_deadline limit)
        (record c { refreshed = now })
    else apply_deadlines faults c.read_deadline c.write_deadline c

unfoldable pub set_deadline : SetFaults → Time → Time → TrackedConn → TrackedConn × Bool
set_deadline faults now deadline c =
    apply_locked faults now (record c { read_deadline = deadline; write_deadline = deadline })

unfoldable pub set_read_deadline : SetFaults → Time → Time → TrackedConn → TrackedConn × Bool
set_read_deadline faults now deadline c =
    apply_locked faults now (record c { read_deadline = deadline })

unfoldable pub set_write_deadline : SetFaults → Time → Time → TrackedConn → TrackedConn × Bool
set_write_deadline faults now deadline c =
    apply_locked faults now (record c { write_deadline = deadline })

unfoldable pub enable_idle : SetFaults → Time → TrackedConn → TrackedConn
enable_idle faults now c =
    if not (ltb_ℤ (pos 0) c.idle)
    then c
    else (apply_locked faults now (record c { idle_enabled = true })).0

-- `touch`, which `Read` and `Write` call first; `checked` and `now` are its two readings of the clock.
unfoldable pub touch : SetFaults → Time → Time → TrackedConn → TrackedConn
unfolding sub_time
touch faults checked now c =
    if not (ltb_ℤ (pos 0) c.idle)
    then c
    else if c.idle_enabled && not (ltb_ℤ (sub_time checked c.refreshed) (pos second))
    then (apply_locked faults now c).0
    else c

-- Any call on a connection that accepts its deadlines.
abbrev pub accepting : SetFaults
accepting = record { set_read = true; set_write = true }

pub data Step (c d : TrackedConn) : Type 0 where
  sets_deadline : (now deadline : Time) → d ≡ (set_deadline accepting now deadline c).0 → Step c d
  sets_read : (now deadline : Time) → d ≡ (set_read_deadline accepting now deadline c).0 → Step c d
  sets_write :
      (now deadline : Time) → d ≡ (set_write_deadline accepting now deadline c).0 → Step c d
  enables : (now : Time) → d ≡ enable_idle accepting now c → Step c d
  touches : (checked now : Time) → d ≡ touch accepting checked now c → Step c d

pub data Reach (c : TrackedConn) : TrackedConn → Type 0 where
  here : Reach c c
  next : {d e : TrackedConn} → Reach c d → Step d e → Reach c e

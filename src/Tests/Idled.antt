-- ===== src/Tests/Idled.antt =====
-- Runs of the deadlines of internal/proxycore/listener.go.
use hamsterd.Common.{◌≡◌, ◌⊎◌, refl, true, arith, ◌*◌}
use hamsterd.Common.Int.{ℤ, pos, ◌+ℤ◌, ◌<ℤ◌}
use hamsterd.Common.Clock.{second, add_time, sub_time}
use hamsterd.Proxycore.Deadlines.{
  TrackedConn, new_conn, earliest, apply_deadlines, apply_locked, enable_idle, touch, accepting,
  enables, Reach, here, next,
}
use hamsterd.Proxycore.Deadlines.Idle.{IsEarlier, touch-IsIdle}

-- A connection whose idle timeout of a minute is on from the tenth second.
abbrev minute : ℤ
minute = pos (60 * second)

abbrev ten : ℤ
ten = pos (10 * second)

abbrev conn : TrackedConn
conn = record (new_conn minute) {
  idle_enabled = true;
  refreshed = ten;
  applied_read = pos (70 * second);
  applied_write = pos (70 * second);
}

conn-Reach : Reach (new_conn minute) conn
unfolding new_conn enable_idle apply_locked apply_deadlines earliest ◌+ℤ◌
conn-Reach = next here (enables ten refl)

conn_idle : pos 0 <ℤ conn.idle
unfolding new_conn
conn_idle = omega arith

conn_enabled : conn.idle_enabled ≡ true
conn_enabled = refl

touch-IsIdle_example :
    let d = touch accepting (pos (20 * second)) (pos (20 * second)) conn in
    IsEarlier d.read_deadline (add_time d.refreshed d.idle) d.applied_read
    × IsEarlier d.write_deadline (add_time d.refreshed d.idle) d.applied_write
    × ((d.refreshed ≡ pos (20 * second)) ⊎ (sub_time (pos (20 * second)) d.refreshed <ℤ pos second))
touch-IsIdle_example =
    touch-IsIdle minute (pos (20 * second)) (pos (20 * second)) conn-Reach conn_enabled conn_idle

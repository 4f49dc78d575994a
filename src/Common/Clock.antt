-- ===== src/Common/Clock.antt =====
-- Package time: a Time is a number of nanoseconds since its zero value, a Duration an int64.
use Prim.Native.Nat.{ℕ, ◌^◌}
use mathlib.Core.Bool.{Bool}
use hamsterd.Common.Int.{ℤ, pos, ◌+ℤ◌, ◌-ℤ◌, ltb_ℤ, eq_ℤ, max_int64, min_int64, wrap64, ◌*ℤ◌}
use hamsterd.Common.Tests.{if◌then◌else◌}

abbrev pub Time : Type 0
Time = ℤ

abbrev pub Duration : Type 0
Duration = ℤ

abbrev pub zero_time : Time
zero_time = pos 0

abbrev pub is_zero_time : Time → Bool
is_zero_time t = eq_ℤ t zero_time

abbrev pub after : Time → Time → Bool
after t u = ltb_ℤ u t

abbrev pub before : Time → Time → Bool
before t u = ltb_ℤ t u

abbrev pub second : ℕ
second = 10 ^ 9

-- t.Add(d)
abbrev pub add_time : Time → Duration → Time
add_time t d = t +ℤ d

-- t.Sub(u), which saturates.
unfoldable pub sub_time : Time → Time → Duration
unfolding ◌-ℤ◌
sub_time t u =
    let d = t -ℤ u in
    if ltb_ℤ max_int64 d then max_int64 else if ltb_ℤ d min_int64 then min_int64 else d

-- time.Duration(n) * time.Second
unfoldable pub seconds_duration : ℤ → Duration
unfolding ◌*ℤ◌ wrap64
seconds_duration n = wrap64 (n *ℤ pos second)

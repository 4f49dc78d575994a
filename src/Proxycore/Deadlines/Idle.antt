-- ===== src/Proxycore/Deadlines/Idle.antt =====
-- Which deadlines a connection of internal/proxycore/listener.go has.
use hamsterd.Common.{
  ◌≡◌, ◌≢◌, ◌⊎◌, refl, sym, subst, true, false, not, ◌&&◌, if◌then◌else◌, arith, if_cases,
  Bool-cases, inl, inr,
}
use hamsterd.Common.Int.{pos, ltb_ℤ, ◌+ℤ◌, ◌<ℤ◌, ◌≤ℤ◌, ltb_ℤ→lt, lt→ltb_ℤ}
use hamsterd.Common.Clock.{
  Time, Duration, zero_time, is_zero_time, before, add_time, sub_time, second,
}
use hamsterd.Proxycore.Deadlines.{
  TrackedConn, new_conn, earliest, apply_deadlines, apply_locked, set_deadline, set_read_deadline,
  set_write_deadline, enable_idle, touch, accepting, Step, sets_deadline, sets_read, sets_write,
  enables, touches, Reach, here, next,
}

-- `t` is the earlier one of a deadline, where there is one, and of a limit.
abbrev pub IsEarlier : Time → Time → Time → Type 0
IsEarlier deadline limit t =
    ((deadline ≡ zero_time) × (t ≡ limit))
    ⊎ ((deadline ≢ zero_time) × (t ≤ℤ deadline) × (t ≤ℤ limit) × ((t ≡ deadline) ⊎ (t ≡ limit)))

earliest-IsEarlier : (deadline limit : Time) → IsEarlier deadline limit (earliest deadline limit)
unfolding earliest
earliest-IsEarlier deadline limit = elim (Bool-cases (is_zero_time deadline)) [
  | inl unset ↦ inl (ground arith, ground (arith, unset))
  | inr given ↦ elim (Bool-cases (before limit deadline)) [
    | inl sooner ↦ inr (
      ground (arith, given),
      ground (arith, given, sooner),
      ground (arith, given, sooner),
      inr (ground (arith, given, sooner)),
    )
    | inr later ↦ inr (
      ground (arith, given),
      ground (arith, given, later),
      ground (arith, given, later),
      inl (ground (arith, given, later)),
    )
  ]
]

-- The deadline that counts, of one that a caller has set.
unfoldable pub effective : TrackedConn → Time → Time
unfolding ◌+ℤ◌
effective c deadline =
    if c.idle_enabled then earliest deadline (add_time c.refreshed c.idle) else deadline

pub record IsApplied (c : TrackedConn) : Type 0 where
  pub read : c.applied_read ≡ effective c c.read_deadline
  pub write : c.applied_write ≡ effective c c.write_deadline

apply_locked-IsApplied : (now : Time) (c : TrackedConn) → IsApplied (apply_locked accepting now c).0
unfolding apply_locked apply_deadlines effective
apply_locked-IsApplied now c = elim (Bool-cases c.idle_enabled) [
  | inl on ↦ rw (on, apply_locked) (record { read = refl; write = refl })
  | inr off ↦ rw (off, apply_locked) (record { read = refl; write = refl })
]

enable_idle-IsApplied :
    (now : Time) (c : TrackedConn) → IsApplied c → IsApplied (enable_idle accepting now c)
unfolding enable_idle
enable_idle-IsApplied now c v =
    if_cases IsApplied (not (ltb_ℤ (pos 0) c.idle)) (λ _. v)
      λ _. apply_locked-IsApplied now (record c { idle_enabled = true })

touch-IsApplied :
    (checked now : Time) (c : TrackedConn) → IsApplied c → IsApplied (touch accepting checked now c)
unfolding touch
touch-IsApplied checked now c v =
    if_cases IsApplied (not (ltb_ℤ (pos 0) c.idle)) (λ _. v)
      λ _.
        if_cases IsApplied
          (c.idle_enabled && not (ltb_ℤ (sub_time checked c.refreshed) (pos second)))
          (λ _. apply_locked-IsApplied now c) λ _. v

Step-IsApplied : {c d : TrackedConn} → Step c d → IsApplied c → IsApplied d
unfolding set_deadline set_read_deadline set_write_deadline
Step-IsApplied (sets_deadline now deadline e) v =
    subst IsApplied (sym e) (apply_locked-IsApplied now _)
Step-IsApplied (sets_read now deadline e) v = subst IsApplied (sym e) (apply_locked-IsApplied now _)
Step-IsApplied (sets_write now deadline e) v =
    subst IsApplied (sym e) (apply_locked-IsApplied now _)
Step-IsApplied {c} (enables now e) v = subst IsApplied (sym e) (enable_idle-IsApplied now c v)
Step-IsApplied {c} (touches checked now e) v =
    subst IsApplied (sym e) (touch-IsApplied checked now c v)

pub Reach-IsApplied : (idle : Duration) {c : TrackedConn} → Reach (new_conn idle) c → IsApplied c
unfolding new_conn effective
Reach-IsApplied idle here = record { read = refl; write = refl }
Reach-IsApplied idle (next r st) = Step-IsApplied st (Reach-IsApplied idle r)

apply_locked-refreshed :
    (now : Time) (c : TrackedConn)
    → c.idle_enabled ≡ true
    → (apply_locked accepting now c).0.refreshed ≡ now
unfolding apply_locked apply_deadlines
apply_locked-refreshed now c on = ground (arith, on)

touch_recent :
    (checked now : Time) (c : TrackedConn)
    → ltb_ℤ (sub_time checked c.refreshed) (pos second) ≡ true
    → (touch accepting checked now c).refreshed ≡ c.refreshed
unfolding touch
touch_recent checked now c recent = ground (arith, recent)

touch_late :
    (checked now : Time) (c : TrackedConn)
    → c.idle_enabled ≡ true
    → pos 0 <ℤ c.idle
    → ltb_ℤ (sub_time checked c.refreshed) (pos second) ≡ false
    → (touch accepting checked now c).refreshed ≡ now
unfolding touch
touch_late checked now c on positive late =
    ground (arith, late, on, lt→ltb_ℤ (pos 0) c.idle positive, apply_locked-refreshed now c on)

touch-refreshed :
    (checked now : Time) (c : TrackedConn)
    → c.idle_enabled ≡ true
    → pos 0 <ℤ c.idle
    → ((touch accepting checked now c).refreshed ≡ now)
      ⊎ (sub_time checked (touch accepting checked now c).refreshed <ℤ pos second)
unfolding touch
touch-refreshed checked now c on positive =
    elim (Bool-cases (ltb_ℤ (sub_time checked c.refreshed) (pos second))) [
      | inl recent ↦ inr (
          ltb_ℤ→lt _ (pos second) (
            subst (λ t. ltb_ℤ (sub_time checked t) (pos second) ≡ true)
              (sym (touch_recent checked now c recent)) recent))
      | inr late ↦ inl (touch_late checked now c on positive late)
    ]

touch-enabled :
    (checked now : Time) (c : TrackedConn)
    → c.idle_enabled ≡ true
    → (touch accepting checked now c).idle_enabled ≡ true
unfolding touch apply_locked apply_deadlines
touch-enabled checked now c on = ground (arith, on)

-- After each read or write of a connection whose idle timeout is on and positive, whatever deadlines
-- were set before, each deadline of the connection below is the idle timeout counted from
-- `refreshed`, if the caller has set none, and else the earlier one of this and of the caller's;
-- `refreshed` is now or less than a second before the check; the connection below accepts deadlines.
pub touch-IsIdle :
    (idle : Duration) (checked now : Time) {c : TrackedConn}
    → Reach (new_conn idle) c
    → c.idle_enabled ≡ true
    → pos 0 <ℤ c.idle
    → let d = touch accepting checked now c in
      IsEarlier d.read_deadline (add_time d.refreshed d.idle) d.applied_read
      × IsEarlier d.write_deadline (add_time d.refreshed d.idle) d.applied_write
      × ((d.refreshed ≡ now) ⊎ (sub_time checked d.refreshed <ℤ pos second))
unfolding effective
touch-IsIdle idle checked now {c} r on positive =
    let v = touch-IsApplied checked now c (Reach-IsApplied idle r) in
    let still = touch-enabled checked now c on in
    let d = touch accepting checked now c in
    let limit = add_time d.refreshed d.idle in
    let read : d.applied_read ≡ earliest d.read_deadline limit = ground (arith, v.read, still) in
    let write : d.applied_write ≡ earliest d.write_deadline limit =
      ground (arith, v.write, still) in
    (
      subst (IsEarlier d.read_deadline limit) (sym read) (earliest-IsEarlier d.read_deadline limit),
      subst (IsEarlier d.write_deadline limit) (sym write)
          (earliest-IsEarlier d.write_deadline limit),
      touch-refreshed checked now c on positive,
    )

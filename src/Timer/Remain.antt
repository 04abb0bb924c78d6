-- ===== src/Timer/Remain.antt =====
-- What the timers of lib/ftm_timer.c say: whether they ran out and how long they still run.
use Prim.Native.Nat.{Ordering}
use catchb.Base.{
  ℕ, ◌+◌, ltb, ◌==◌, if◌then◌else◌, ◌-◌, ◌*◌, ◌/◌, ◌^◌, ◌<◌, ◌≤◌, ◌≡◌, ◌↔◌, ◌≢◌, ◌⊎◌, inl, inr,
  true, arith, Bool-cases, ap, some, none,
}
use catchb.Timer.{
  Timeval, Timer, timersub, is_before, is_expired, remain_us, remain_ms, remain_s, wait_for_expired,
  compare_timers, init_ms, start, timeradd,
}
use catchb.Timer.Exact.{micros, IsNormal, is_before-micros}

-- For times with less than a million microseconds, isExpired says yes exactly if the clock is
-- after the expiry or before the base.
is_expired_iff :
    (t : Timer) (now : Timeval)
    → IsNormal t.expired
    → IsNormal t.base
    → IsNormal now
    → (is_expired t now ≡ true) ↔ ((micros t.expired < micros now) ⊎ (micros now < micros t.base))
unfolding is_expired is_before
is_expired_iff t now e b n = ground arith

timersub-micros :
    (a b : Timeval)
    → IsNormal a
    → IsNormal b
    → micros b ≤ micros a
    → micros (timersub a b) ≡ micros a - micros b
unfolding timersub
timersub-micros a b ha hb h = ground arith

-- The microseconds up to the expiry, 0 after it.
remain_us_exact :
    (t : Timer) (now : Timeval)
    → IsNormal t.expired
    → IsNormal now
    → micros t.expired < 2 ^ 64
    → remain_us t now ≡ micros t.expired - micros now
unfolding remain_us
remain_us_exact t now e n small = elim (Bool-cases (is_before now t.expired)) [
  | inl before ↦
      let later : micros now < micros t.expired = (is_before-micros now t.expired n e).0 before in
      let left = timersub-micros t.expired now e n (omega arith) in
      rw before (rw left (omega arith))
  | inr after ↦ rw after (ground (arith, is_before-micros now t.expired n e))
]

-- A timer that runs for less than 2 ^ 32 milliseconds from now on.
abbrev pub IsNear : Timer → (now : Timeval) → Type 0
IsNear t now =
    IsNormal t.expired
    × (micros t.expired < 2 ^ 64)
    × (micros t.expired - micros now < 2 ^ 32 * 1000)

-- For a timer with less than 2 ^ 32 milliseconds to go, an expiry within 64 bits and times with
-- less than a million microseconds, remainUS, remainMS and remainS return the time up to the
-- expiry, rounded down, and 0 after it.
remains_exact :
    (t : Timer) (now : Timeval)
    → IsNormal now
    → IsNear t now
    → let left = micros t.expired - micros now in
      (remain_us t now ≡ left) × (remain_ms t now ≡ left / 1000) × (remain_s t now ≡ left / 1000000)
unfolding remain_ms remain_s
remains_exact t now n (e, small, near) =
    let us = remain_us_exact t now e n small in (us, rw us (omega arith), rw us (omega arith))

no_greater :
    (m n : ℕ)
    → m ≤ n
    → (if ltb n m then Ordering.gt else (if m == n then Ordering.eq else Ordering.lt)) ≢ Ordering.gt
no_greater m n h = ground arith

-- Of two timers with less than 2 ^ 32 milliseconds to go, read at the same clock, the
-- comparator never calls the one that expires no later the greater.
compare_timers_lem :
    (a b : Timer) (now : Timeval)
    → IsNormal now
    → IsNear a now
    → IsNear b now
    → micros a.expired ≤ micros b.expired
    → compare_timers a now b now ≢ Ordering.gt
unfolding compare_timers
compare_timers_lem a b now n na nb h =
    let (_, left_a, _) = remains_exact a now n na in
    let (_, left_b, _) = remains_exact b now n nb in
    no_greater (remain_ms a now) (remain_ms b now) (rw (left_a, left_b) (omega arith))

-- For times with less than a million microseconds and less than 2 ^ 32 microseconds to go,
-- waitForExpired sleeps exactly up to the expiry if the clock is after the base and before the
-- expiry, and does not sleep otherwise.
wait_for_expired_exact :
    (t : Timer) (now : Timeval)
    → IsNormal t.expired
    → IsNormal t.base
    → IsNormal now
    → micros t.expired - micros now < 2 ^ 32
    → (micros t.base < micros now
        → micros now < micros t.expired
        → wait_for_expired t now ≡ some (micros t.expired - micros now))
      × ((micros now ≤ micros t.base) ⊎ (micros t.expired ≤ micros now)
          → wait_for_expired t now ≡ none)
unfolding wait_for_expired
wait_for_expired_exact t now e b n small = (
  (λ started running.
      let left = timersub-micros t.expired now e n (omega arith) in
      rw
        (
          (is_before-micros t.base now b n).1 started,
          (is_before-micros now t.expired n e).1 running,
          left,
        )
        (ap some (omega arith))),
  (λ over. ground (arith, is_before-micros t.base now b n, is_before-micros now t.expired n e)),
)

-- A timer that `initMS` has set says that it has expired after exactly the timeout.
pub is_expired-init_ms :
    (now later : Timeval) (ms : ℕ)
    → IsNormal now
    → IsNormal later
    → micros now ≤ micros later
    → is_expired (init_ms now ms) later ≡ ltb (micros now + ms * 1000) (micros later)
unfolding is_expired init_ms start timeradd is_before
is_expired-init_ms now later ms n l after = ground arith

-- ===== src/Timer/Exact.antt =====
-- The times that the timers of lib/ftm_timer.c are set to, in microseconds.
use catchb.Base.{ℕ, ◌+◌, ◌-◌, ◌*◌, ◌/◌, ◌%◌, ◌^◌, ◌<◌, ◌≤◌, ◌≡◌, ◌↔◌, true, arith}
use catchb.Timer.{
  Timeval, Timer, timeradd, is_before, start, init_us, init_ms, init_s, init_time, add_time,
  next_base, add_us, add_ms, add_s,
}

abbrev pub micros : Timeval → ℕ
micros a = a.sec * 1000000 + a.usec

abbrev pub IsNormal : Timeval → Type 0
IsNormal a = a.usec < 1000000

timeradd-micros :
    (a b : Timeval)
    → (micros (timeradd a b) ≡ micros a + micros b)
      × (IsNormal a → IsNormal b → IsNormal (timeradd a b))
unfolding timeradd
timeradd-micros a b = (ground arith, ground arith)

pub is_before-micros :
    (a b : Timeval) → IsNormal a → IsNormal b → (is_before a b ≡ true) ↔ (micros a < micros b)
unfolding is_before
is_before-micros a b ha hb = ground arith

-- For a clock and a time with less than a million microseconds, initUS, initMS, initTime, and
-- initS for less than 4295 seconds, set the expiry to exactly the timeout after the clock, with
-- less than a million microseconds.
inits_exact :
    (now : Timeval) (us ms s : ℕ) (time : Timeval)
    → IsNormal now
    → IsNormal time
    → s < 4295
    → (micros (init_us now us).expired ≡ micros now + us)
      × (micros (init_ms now ms).expired ≡ micros now + ms * 1000)
      × (micros (init_s now s).expired ≡ micros now + s * 1000000)
      × (micros (init_time now time).expired ≡ micros now + micros time)
      × IsNormal (init_us now us).expired
      × IsNormal (init_ms now ms).expired
      × IsNormal (init_s now s).expired
      × IsNormal (init_time now time).expired
unfolding init_us init_ms init_s init_time start timeradd add_time
inits_exact now us ms s time n t small = (
  ground arith,
  ground arith,
  ground arith,
  ground arith,
  ground arith,
  ground arith,
  ground arith,
  ground arith,
)

-- addS moves an expiry with less than a million microseconds on by exactly the added seconds,
-- whichever new base it takes.
add_s_exact :
    (t : Timer) (now : Timeval) (s : ℕ)
    → IsNormal t.expired
    → (micros (add_s t now s).expired ≡ micros t.expired + s * 1000000)
      × IsNormal (add_s t now s).expired
unfolding add_s timeradd
add_s_exact t now s h = (ground arith, ground arith)

-- addMS moves the expiry on by one second for each whole second of the added time and by one
-- more second for each millisecond that is left.
add_ms_too_long :
    (t : Timer) (now : Timeval) (ms : ℕ)
    → micros (add_ms t now ms).expired ≡ micros t.expired + (ms / 1000 + ms % 1000) * 1000000
unfolding add_ms timeradd
add_ms_too_long t now ms = ground arith

-- For times with less than a million microseconds and a clock within 32 bits of seconds, addUS
-- sets the expiry to the added time after its new base: the clock if that is before the base,
-- the old expiry if the clock's seconds are at most the added seconds after the base's, and
-- else the base with the clock's second.
add_us_exact :
    (t : Timer) (now : Timeval) (us : ℕ)
    → IsNormal now
    → IsNormal t.base
    → now.sec < 2 ^ 32
    → let expired = micros (add_us t now us).expired in
      (micros now < micros t.base → expired ≡ micros now + us)
      × (micros t.base ≤ micros now
          → now.sec - t.base.sec ≤ us / 1000000
          → expired ≡ micros t.expired + us)
      × (micros t.base ≤ micros now
          → us / 1000000 < now.sec - t.base.sec
          → expired ≡ now.sec * 1000000 + t.base.usec + us)
unfolding add_us timeradd next_base is_before
add_us_exact t now us n b small = (ground arith, ground arith, ground arith)

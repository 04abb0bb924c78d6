-- ===== src/Timer/Early.antt =====
-- `addMS` of lib/ftm_timer.c gives the new base the second of the clock, but leaves it its
-- microseconds.
use catchb.Base.{ℕ, ◌-◌, ◌/◌, ◌%◌, ◌^◌, ◌<◌, ◌≡◌, true, arith}
use catchb.Timer.{Timeval, Timer, add_ms, is_expired, is_before, next_base}

-- The clock is past the base, by more seconds than the time to add, but not past its microseconds.
pub record IsLate (t : Timer) (now : Timeval) (time_ms : ℕ) : Type 0 where
  pub seconds : time_ms / 1000 < (now.sec - t.base.sec) % 2 ^ 32
  pub micros : now.usec < t.base.usec

pub add_ms-early :
    (t : Timer) (now : Timeval) (time_ms : ℕ)
    → IsLate t now time_ms
    → is_expired (add_ms t now time_ms) now ≡ true
unfolding add_ms is_expired next_base is_before
add_ms-early t now time_ms late = ground (arith, late.seconds, late.micros)

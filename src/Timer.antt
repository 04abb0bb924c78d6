-- ===== src/Timer.antt =====
-- lib/ftm_timer.c: timers on `struct timeval`. `now` is what `gettimeofday` says, times are after
-- the epoch, and `timeradd`, `timersub` and `timercmp` are those of <sys/time.h>.
pub mod Exact
pub mod Remain
pub mod Early
mod Tests
use Prim.Native.Nat.{Ordering, compare}
use catchb.Base.{
  ℕ, ◌+◌, ◌-◌, ◌*◌, ◌/◌, ◌%◌, ◌^◌, Bool, true, false, ◌&&◌, ◌||◌, Option, none, some, ltb, leb,
  ◌==◌, if◌then◌else◌,
}
use catchb.Ret.{Ret, ok}

pub record Timeval : Type 0 where
  pub sec : ℕ
  pub usec : ℕ

pub record Timer : Type 0 where
  pub timeout : Timeval
  pub base : Timeval
  pub expired : Timeval

timeradd : Timeval → Timeval → Timeval
timeradd a b =
    if leb 1000000 (a.usec + b.usec)
    then record { sec = a.sec + b.sec + 1; usec = a.usec + b.usec - 1000000 }
    else record { sec = a.sec + b.sec; usec = a.usec + b.usec }

-- For `a` not before `b`.
timersub : Timeval → Timeval → Timeval
timersub a b =
    if ltb a.usec b.usec
    then record { sec = a.sec - b.sec - 1; usec = a.usec + 1000000 - b.usec }
    else record { sec = a.sec - b.sec; usec = a.usec - b.usec }

-- `timercmp(a, b, <)`; with `>` the source means the same the other way round.
unfoldable pub is_before : Timeval → Timeval → Bool
is_before a b = if a.sec == b.sec then ltb a.usec b.usec else ltb a.sec b.sec

-- The rest of each `init`.
start : (now timeout : Timeval) → Timer
unfolding timeradd
start now timeout = record { timeout = timeout; base = now; expired = timeradd now timeout }

pub init_us : (now : Timeval) → (timeout_us : ℕ) → Timer
unfolding start
init_us now timeout_us =
    start now (record { sec = timeout_us / 1000000; usec = timeout_us % 1000000 })

unfoldable pub init_ms : (now : Timeval) → (timeout_ms : ℕ) → Timer
unfolding start
init_ms now timeout_ms =
    start now (record { sec = timeout_ms / 1000; usec = timeout_ms % 1000 * 1000 })

pub init_s : (now : Timeval) → (timeout_s : ℕ) → Timer
unfolding init_us
init_s now timeout_s = init_us now (timeout_s * 1000000 % 2 ^ 32)

-- `addTime` adds to the expiry alone.
add_time : Timer → (timeout : Timeval) → Timer
unfolding timeradd
add_time t timeout = record t { timeout = timeout; expired = timeradd t.expired timeout }

pub init_time : (now timeout : Timeval) → Timer
unfolding init_us add_time
init_time now timeout = add_time (init_us now 0) timeout

-- The new base of `addUS`, `addMS` and `addS`; `secs` is the time to add in whole seconds.
next_base : Timer → (now : Timeval) → (secs : ℕ) → Timeval
unfolding is_before
next_base t now secs =
    if is_before now t.base
    then now
    else (if ltb secs ((now.sec - t.base.sec) % 2 ^ 32)
        then record (t.base) { sec = now.sec }
        else t.expired)

-- `addUS` counts from the new base.
pub add_us : Timer → (now : Timeval) → (time_us : ℕ) → Timer
unfolding next_base timeradd
add_us t now time_us =
    let timeout : Timeval = record { sec = time_us / 1000000; usec = time_us % 1000000 } in
    let base = next_base t now (time_us / 1000000) in
    record { timeout = timeout; base = base; expired = timeradd base timeout }

-- `addMS` and `addS` count from the old expiry. The product is one of `FTM_UINT32`.
unfoldable pub add_ms : Timer → (now : Timeval) → (time_ms : ℕ) → Timer
unfolding next_base timeradd
add_ms t now time_ms =
    let timeout : Timeval = record {
      sec = time_ms / 1000;
      usec = time_ms % 1000 * 1000000 % 2 ^ 32;
    } in
    record {
      timeout = timeout;
      base = next_base t now (time_ms / 1000);
      expired = timeradd t.expired timeout;
    }

add_s : Timer → (now : Timeval) → (time_s : ℕ) → Timer
unfolding next_base timeradd
add_s t now time_s =
    let timeout : Timeval = record { sec = time_s; usec = 0 } in
    record {
      timeout = timeout;
      base = next_base t now time_s;
      expired = timeradd t.expired timeout;
    }

unfoldable pub is_expired : Timer → (now : Timeval) → Bool
unfolding is_before
is_expired t now = is_before t.expired now || is_before now t.base

-- What `waitForExpired` hands to `usleep`, if it calls it.
pub wait_for_expired : Timer → (now : Timeval) → Option ℕ
unfolding is_before timersub
wait_for_expired t now =
    let left = timersub t.expired now in
    if is_before t.base now && is_before now t.expired
    then some ((left.sec * 1000000 + left.usec) % 2 ^ 32)
    else none

-- In 64 bits.
pub remain_us : Timer → (now : Timeval) → ℕ
unfolding is_before timersub
remain_us t now =
    let left = timersub t.expired now in
    if is_before now t.expired then (left.sec * 1000000 + left.usec) % 2 ^ 64 else 0

pub remain_ms : Timer → (now : Timeval) → ℕ
unfolding remain_us
remain_ms t now = remain_us t now / 1000 % 2 ^ 32

pub remain_s : Timer → (now : Timeval) → ℕ
unfolding remain_us
remain_s t now = remain_us t now / 1000000 % 2 ^ 32

unfoldable get_time : Timer → Ret × ℕ
get_time t = (ok, t.expired.sec % 2 ^ 32)

-- `FTM_EVENT_TIMER_comparator`: each of the two look-ups reads the clock.
unfoldable pub compare_timers :
    (a : Timer) → (now_a : Timeval) → (b : Timer) → (now_b : Timeval) → Ordering
unfolding remain_ms
compare_timers a now_a b now_b =
    if ltb (remain_ms b now_b) (remain_ms a now_a)
    then Ordering.gt
    else (if remain_ms a now_a == remain_ms b now_b then Ordering.eq else Ordering.lt)

-- ===== src/Time.antt =====
-- lib/ftm_time.c: arithmetic, alignment and texts of times after the epoch. All but `is_valid`,
-- `align` and `set_string` return OK. A `long` and a signed 64-bit sum do not overflow; what the
-- source computes in FTM_UINT32 and FTM_UINT64 wraps around. `strptime`, `mktime` and
-- `localtime_r` are those of <time.h>.
pub mod Exact
pub mod Align
pub mod Parse
mod Tests
use catchb.Base.{
  ℕ, ◌+◌, ◌-◌, ◌*◌, ◌/◌, ◌%◌, ◌^◌, Bool, true, ◌&&◌, Option, none, some, ltb, leb, ◌==◌,
  if◌then◌else◌,
}
use catchb.Ret.{Ret, ok, error, invalid_arguments}
use catchb.Timer.{Timeval}

-- A pointer to a time; NULL counts as zero.
unfoldable is_zero : Option Timeval → Bool
is_zero none = true
is_zero (some t) = t.sec == 0 && t.usec == 0

pub set : (time_ms : ℕ) → Timeval
set ms = record { sec = ms / 1000; usec = ms % 1000 * 1000 }

unfoldable set_seconds : (time_s : ℕ) → Timeval
set_seconds s = record { sec = s; usec = 0 }

unfoldable get_current_secs : (now : Timeval) → ℕ
get_current_secs now = now.sec % 2 ^ 32

-- The carry of the sums.
carried : (sec usec : ℕ) → Timeval
carried sec usec = record { sec = sec + usec / 1000000; usec = usec % 1000000 }

pub add : (a b : Timeval) → Timeval
unfolding carried
add a b = carried (a.sec + b.sec) (a.usec + b.usec)

pub add_ms : Timeval → (time_ms : ℕ) → Timeval
unfolding carried
add_ms t ms = carried t.sec (t.usec + ms * 1000 % 2 ^ 32)

pub add_secs : Timeval → (time_s : ℕ) → Timeval
add_secs t s = record t { sec = t.sec + s }

pub add_mins : Timeval → (time_m : ℕ) → Timeval
add_mins t m = record t { sec = t.sec + m * 60 % 2 ^ 32 }

pub add_hours : Timeval → (time_h : ℕ) → Timeval
add_hours t h = record t { sec = t.sec + h * 60 * 60 % 2 ^ 32 }

pub add_days : Timeval → (time_d : ℕ) → Timeval
add_days t d = record t { sec = t.sec + d * 60 * 60 * 24 % 2 ^ 32 }

of_us : ℕ → Timeval
of_us us = record { sec = us / 1000000; usec = us % 1000000 }

pub sub : (a b : Timeval) → Timeval
unfolding of_us
sub a b =
    let x = a.sec * 1000000 + a.usec in
    let y = b.sec * 1000000 + b.usec in
    if ltb y x then of_us (x - y) else record { sec = 0; usec = 0 }

-- What the five others share: they take `us` off a time of more than `limit` microseconds.
less : Timeval → (limit us : ℕ) → Timeval
unfolding of_us
less t limit us =
    let x = (t.sec * 1000000 + t.usec) % 2 ^ 64 in of_us (if ltb limit x then x - us else 0)

pub sub_ms : Timeval → (time_ms : ℕ) → Timeval
unfolding less
sub_ms t ms = less t (ms * 1000) (ms * 1000)

pub sub_secs : Timeval → (time_s : ℕ) → Timeval
unfolding less
sub_secs t s = less t (s * 1000000) (s * 1000000)

pub sub_mins : Timeval → (time_m : ℕ) → Timeval
unfolding less
sub_mins t m = less t (m * 60 % 2 ^ 32 * 1000000) (m * 60 % 2 ^ 32 * 1000000)

-- Compared in microseconds, taken off in thousandths of them.
pub sub_hours : Timeval → (time_h : ℕ) → Timeval
unfolding less
sub_hours t h = less t (h * 60 * 60 % 2 ^ 32 * 1000000) (h * 60 * 60 % 2 ^ 32 * 1000)

pub sub_days : Timeval → (time_d : ℕ) → Timeval
unfolding less
sub_days t d = less t (d * 60 * 60 * 24 % 2 ^ 32 * 1000) (d * 1000)

pub is_valid : (t begin end : Timeval) → Ret
is_valid t b e = if leb b.sec t.sec && ltb t.sec e.sec then ok else error

pub data TimeAlign : Type 0 where
  s1 s10 m1 m10 h1 d1 other : TimeAlign

whole : ℕ → Ret × Timeval
whole s = (ok, record { sec = s; usec = 0 })

-- `r` is what `*pTimeR` holds.
pub align : Timeval → TimeAlign → (r : Timeval) → Ret × Timeval
unfolding whole
align t s1 r = whole t.sec
align t s10 r = whole (t.sec / 10 * 10)
align t m1 r = whole (t.sec / 60 * 60)
align t m10 r = whole (t.sec / 600 * 600)
align t h1 r = whole (t.sec / 3600 * 3600)
align t d1 r = whole (t.sec / (24 * 3600) * (24 * 3600))
align t other r = (invalid_arguments, r)

unfoldable to_ms : Timeval → ℕ
to_ms t = (t.sec * 1000 + t.usec / 1000) % 2 ^ 64

unfoldable to_secs : Timeval → ℕ
to_secs t = t.sec % 2 ^ 32

-- `struct tm`; `rest` stands for the fields that the source does not name.
pub record Tm : Type 0 where
  pub year : ℕ
  pub mon : ℕ
  pub mday : ℕ
  pub hour : ℕ
  pub min : ℕ
  pub sec : ℕ
  pub rest : ℕ

abbrev pub zero_tm : Tm
zero_tm = record { year = 0; mon = 0; mday = 0; hour = 0; min = 0; sec = 0; rest = 0 }

pub record Date : Type 0 where
  pub year : ℕ
  pub mon : ℕ
  pub day : ℕ
  pub hour : ℕ
  pub min : ℕ
  pub sec : ℕ

date_of : Tm → Date
date_of m = record {
  year = m.year;
  mon = m.mon;
  day = m.mday;
  hour = m.hour;
  min = m.min;
  sec = m.sec;
}

unfoldable to_date : (localtime : ℕ → Tm) → Timeval → Date
unfolding date_of
to_date localtime t = date_of (localtime t.sec)

unfoldable get_current : (localtime : ℕ → Tm) → (now : ℕ) → Date
unfolding date_of
get_current localtime now = date_of (localtime now)

unfoldable to_time : (mktime : Tm → ℕ) → Date → Timeval
to_time mktime d = record {
  sec = mktime (record {
    year = d.year;
    mon = d.mon;
    mday = d.day;
    hour = d.hour;
    min = d.min;
    sec = d.sec;
    rest = 0;
  });
  usec = 0;
}

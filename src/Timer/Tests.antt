-- ===== src/Timer/Tests.antt =====
-- Runs of lib/ftm_timer.c.
use catchb.Base.{arith}
use catchb.Timer.{Timeval, Timer}
use catchb.Timer.Remain.{IsNear}

abbrev now : Timeval
now = record { sec = 100; usec = 999999 }

-- From second 98 up to second 103.5.
abbrev timer : Timer
timer = record {
  timeout = record { sec = 5; usec = 500000 };
  base = record { sec = 98; usec = 0 };
  expired = record { sec = 103; usec = 500000 };
}

abbrev half : Timeval
half = record { sec = 0; usec = 500000 }

timer-IsNear : IsNear timer now
timer-IsNear = (omega arith, omega arith, omega arith)

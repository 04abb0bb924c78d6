-- ===== src/Msgq/Deadline.antt =====
-- The time at which `FTM_MSGQ_timedPop` of lib/ftm_msgq.c gives up.
use catchb.Base.{ℕ, ◌+◌, ◌*◌, ◌<◌, ◌≡◌, arith}
use catchb.Msgq.{deadline}

-- The time that timedPop gives to sem_timedwait is the timeout in milliseconds after the clock,
-- with less than 10 ^ 9 nanoseconds.
deadline-exact :
    (sec nsec timeout_ms : ℕ)
    → let (s, n) = deadline sec nsec timeout_ms in
      (s * 1000000000 + n ≡ sec * 1000000000 + nsec + timeout_ms * 1000000) × (n < 1000000000)
unfolding deadline
deadline-exact sec nsec timeout_ms = (omega arith, omega arith)

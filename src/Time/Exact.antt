-- ===== src/Time/Exact.antt =====
-- The sums and differences of lib/ftm_time.c, in microseconds.
use catchb.Base.{
  ℕ, ◌+◌, ◌-◌, ◌*◌, ◌%◌, ◌^◌, ◌<◌, ◌≤◌, ◌≡◌, arith, ltb, if◌then◌else◌, Bool-cases, inl, inr,
}
use catchb.Timer.{Timeval}
use catchb.Timer.Exact.{micros, IsNormal}
use catchb.Time.{
  add, add_ms, add_secs, add_mins, add_hours, add_days, carried, sub, sub_ms, sub_secs, sub_mins,
  sub_hours, sub_days, less, of_us,
}

carried-micros : (s us : ℕ) → (micros (carried s us) ≡ s * 1000000 + us) × IsNormal (carried s us)
unfolding carried
carried-micros s us = (omega arith, omega arith)

-- For a time with less than a million microseconds, add gives the sum of two times and addMS,
-- addSecs, addMins, addHours and addDays the time moved on by exactly the amount, as long as
-- the amount in milliseconds times 1000, or in seconds, is within 32 bits; add and addMS leave
-- less than a million microseconds.
adds_exact :
    (a b : Timeval) (n : ℕ)
    → IsNormal a
    → (micros (add a b) ≡ micros a + micros b)
      × IsNormal (add a b)
      × (n < 4294968 → (micros (add_ms a n) ≡ micros a + n * 1000) × IsNormal (add_ms a n))
      × (micros (add_secs a n) ≡ micros a + n * 1000000)
      × (n < 71582789 → micros (add_mins a n) ≡ micros a + n * 60000000)
      × (n < 1193047 → micros (add_hours a n) ≡ micros a + n * 3600000000)
      × (n < 49711 → micros (add_days a n) ≡ micros a + n * 86400000000)
unfolding add add_ms add_secs add_mins add_hours add_days carried
adds_exact a b n h = (
  omega arith,
  omega arith,
  λ few. (omega arith, omega arith),
  omega arith,
  λ few. omega arith,
  λ few. omega arith,
  λ few. omega arith,
)

less-micros :
    (t : Timeval) (limit us : ℕ)
    → micros t < 2 ^ 64
    → us ≤ limit
    → micros (less t limit us) ≡ (if ltb limit (micros t) then micros t - us else 0)
unfolding less of_us
less-micros t limit us small h = elim (Bool-cases (ltb limit (micros t))) [
  | inl more ↦ ground arith
  | inr all ↦ ground arith
]

-- For a time whose microseconds are within 64 bits, sub, subMS, subSecs and, for minutes whose
-- seconds are within 32 bits, subMins give the difference in microseconds, and 0 if there is
-- more to take off than there is.
subs_exact :
    (a b : Timeval) (n : ℕ)
    → micros a < 2 ^ 64
    → (micros (sub a b) ≡ micros a - micros b)
      × (micros (sub_ms a n) ≡ micros a - n * 1000)
      × (micros (sub_secs a n) ≡ micros a - n * 1000000)
      × (n < 71582789 → micros (sub_mins a n) ≡ micros a - n * 60000000)
unfolding sub sub_ms sub_secs sub_mins of_us
subs_exact a b n small = (
  ground arith,
  ground (arith, less-micros a (n * 1000) (n * 1000)),
  ground (arith, less-micros a (n * 1000000) (n * 1000000)),
  λ few. ground (arith, less-micros a (n * 60 % 2 ^ 32 * 1000000) (n * 60 % 2 ^ 32 * 1000000)),
)

-- For a time whose microseconds are within 64 bits, subHours takes 3.6 seconds off for each
-- hour if the hours are less than the time and their seconds within 32 bits, and subDays one
-- millisecond for each day if the days are less than the time.
subs_short :
    (t : Timeval) (n : ℕ)
    → micros t < 2 ^ 64
    → (n < 1193047 → n * 3600000000 < micros t → micros (sub_hours t n) ≡ micros t - n * 3600000)
      × (n < 49711 → n * 86400000000 < micros t → micros (sub_days t n) ≡ micros t - n * 1000)
unfolding sub_hours sub_days
subs_short t n small = (
  λ few later.
      ground (arith, less-micros t (n * 60 * 60 % 2 ^ 32 * 1000000) (n * 60 * 60 % 2 ^ 32 * 1000)),
  λ few later. ground (arith, less-micros t (n * 60 * 60 * 24 % 2 ^ 32 * 1000) (n * 1000)),
)

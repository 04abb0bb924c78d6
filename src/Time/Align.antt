-- ===== src/Time/Align.antt =====
-- The alignment of times in lib/ftm_time.c.
use catchb.Base.{ℕ, ◌+◌, ◌*◌, ◌/◌, ◌<◌, ◌≤◌, ◌≡◌, refl, arith}
use catchb.Ret.{ok, invalid_arguments}
use catchb.Timer.{Timeval}
use catchb.Time.{TimeAlign, s1, s10, m1, m10, h1, d1, other, align, whole}

-- The unit of an alignment, in seconds; 0 for a value that the enumeration does not name.
abbrev unit_of : TimeAlign → ℕ
unit_of s1 = 1
unit_of s10 = 10
unit_of m1 = 60
unit_of m10 = 600
unit_of h1 = 3600
unit_of d1 = 86400
unit_of other = 0

-- The last multiple of the unit up to a time, in whole seconds.
pub record IsFloor (u : ℕ) (t r : Timeval) : Type 0 where
  pub quotient : ℕ
  pub multiple : r.sec ≡ quotient * u
  pub below : r.sec ≤ t.sec
  pub near : t.sec < r.sec + u
  pub no_usec : r.usec ≡ 0

-- align gives OK and the last multiple of the unit that is not after the time, in whole
-- seconds, for each unit of the enumeration, and INVALID_ARGUMENTS with the result untouched
-- for any other value.
align-IsFloor :
    (t : Timeval) (a : TimeAlign) (r : Timeval)
    → (0 < unit_of a → ((align t a r).0 ≡ ok) × IsFloor (unit_of a) t (align t a r).1)
      × (unit_of a ≡ 0 → align t a r ≡ (invalid_arguments, r))
unfolding align whole
align-IsFloor t s1 r = (
  λ _. (
    refl,
    record {
      quotient = t.sec;
      multiple = omega arith;
      below = omega arith;
      near = omega arith;
      no_usec = refl;
    },
  ),
  λ e. absurd (omega arith),
)
align-IsFloor t s10 r = (
  λ _. (
    refl,
    record {
      quotient = t.sec / 10;
      multiple = omega arith;
      below = omega arith;
      near = omega arith;
      no_usec = refl;
    },
  ),
  λ e. absurd (omega arith),
)
align-IsFloor t m1 r = (
  λ _. (
    refl,
    record {
      quotient = t.sec / 60;
      multiple = omega arith;
      below = omega arith;
      near = omega arith;
      no_usec = refl;
    },
  ),
  λ e. absurd (omega arith),
)
align-IsFloor t m10 r = (
  λ _. (
    refl,
    record {
      quotient = t.sec / 600;
      multiple = omega arith;
      below = omega arith;
      near = omega arith;
      no_usec = refl;
    },
  ),
  λ e. absurd (omega arith),
)
align-IsFloor t h1 r = (
  λ _. (
    refl,
    record {
      quotient = t.sec / 3600;
      multiple = omega arith;
      below = omega arith;
      near = omega arith;
      no_usec = refl;
    },
  ),
  λ e. absurd (omega arith),
)
align-IsFloor t d1 r = (
  λ _. (
    refl,
    record {
      quotient = t.sec / 86400;
      multiple = omega arith;
      below = omega arith;
      near = omega arith;
      no_usec = refl;
    },
  ),
  λ e. absurd (omega arith),
)
align-IsFloor t other r = (λ h. absurd (omega arith), λ _. refl)

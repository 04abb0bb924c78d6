-- ===== src/Time/Parse/Texts.antt =====
-- Which texts `FTM_TIME_setString` of lib/ftm_time.c takes, and what it makes of them.
use catchb.Base.{Text, ℕ, zero, suc, ◌≡◌, true, false, [], ◌∷◌, arith, length, Bool-cases, inl, inr}
use catchb.Ret.{Ret, ok, invalid_format}
use catchb.Timer.{Timeval}
use catchb.Time.{Tm, zero_tm}
use catchb.Time.Parse.{Calendar, set_string, set_longer, is_marked, all_digits, is_at, date_seconds}

not-digit_of_at : (s : Text) (i : ℕ) → is_at s i b'/' ≡ true → all_digits s ≡ false
not-digit_of_at [] i h = cc
not-digit_of_at (c ∷ s) zero h = ground arith
not-digit_of_at (c ∷ s) (suc i) h = ground (arith, not-digit_of_at s i)

-- setString says INVALID_FORMAT and leaves the time as it was for every text of ten characters,
-- a date with its marks included.
date_rejected :
    (cal : Calendar) (garbage : Tm) (t : Timeval) (s : Text)
    → length s ≡ 10
    → set_string cal garbage t s ≡ (invalid_format, t)
unfolding set_string set_longer is_marked
date_rejected cal garbage t s h = elim (Bool-cases (is_at s 4 b'/')) [
  | inl marked ↦ ground (arith, not-digit_of_at s 4)
  | inr unmarked ↦ ground arith
]

-- The text "y1y2y3y4-m1m2-d1d2 h1h2:n1n2:s1s2".
abbrev pub written : (y1 y2 y3 y4 m1 m2 d1 d2 h1 h2 n1 n2 s1 s2 : ℕ) → Text
written y1 y2 y3 y4 m1 m2 d1 d2 h1 h2 n1 n2 s1 s2 =
    y1 ∷ y2 ∷ y3 ∷ y4 ∷ b'-' ∷ m1 ∷ m2 ∷ b'-' ∷ d1 ∷ d2 ∷ b' ' ∷ h1 ∷ h2 ∷ b':' ∷ n1 ∷ n2 ∷ b':'
    ∷ s1 ∷ s2 ∷ []

-- What strptime and mktime make of a text from the struct `tm`.
abbrev pub read_from : Calendar → (tm : Tm) → Text → Ret × Timeval
read_from cal tm s = (ok, record { sec = cal.mktime (cal.strptime s date_seconds tm); usec = 0 })

module _ (cal : Calendar) (garbage : Tm) (t : Timeval) where
  -- Of fourteen digits setString makes OK and the time that mktime makes of what strptime reads
  -- from the date and time with the marks between them into xTM as it was on the stack; of
  -- twelve digits the same with 20 before them; and of the date and time with the marks the
  -- same read into a zeroed xTM.
  pub set_string_digits :
      (y1 y2 y3 y4 m1 m2 d1 d2 h1 h2 n1 n2 s1 s2 : ℕ)
      → let short = y3 ∷ y4 ∷ m1 ∷ m2 ∷ d1 ∷ d2 ∷ h1 ∷ h2 ∷ n1 ∷ n2 ∷ s1 ∷ s2 ∷ [] in
        all_digits (y1 ∷ y2 ∷ short) ≡ true
        → (set_string cal garbage t (y1 ∷ y2 ∷ short)
            ≡ read_from cal garbage (written y1 y2 y3 y4 m1 m2 d1 d2 h1 h2 n1 n2 s1 s2))
          × (set_string cal garbage t short
              ≡ read_from cal garbage (written b'2' b'0' y3 y4 m1 m2 d1 d2 h1 h2 n1 n2 s1 s2))
          × (set_string cal garbage t (written y1 y2 y3 y4 m1 m2 d1 d2 h1 h2 n1 n2 s1 s2)
              ≡ read_from cal zero_tm (written y1 y2 y3 y4 m1 m2 d1 d2 h1 h2 n1 n2 s1 s2))
  unfolding set_string set_longer is_marked
  set_string_digits y1 y2 y3 y4 m1 m2 d1 d2 h1 h2 n1 n2 s1 s2 d =
      (ground arith, ground arith, ground arith)
